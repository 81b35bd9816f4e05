-- ===== src/Tests/Dkg/Endings.antt =====
-- Committees that do not finish, sessions that are done or abandoned, and a share on its way, on
-- fixed inputs.
use aequa_network.Base.{
  ℕ, ◌≡◌, refl, true, false, List, [], ◌∷◌, ◌++◌, some, arith, contains, lookup,
}
use aequa_network.Store.{put_uint, get_uint}
use aequa_network.Tss.Dkg.Curve.{Bytes, zeros}
use aequa_network.Tss.Dkg.Feldman.{
  eval_poly_at, eval_loop, commitments_from_poly, verify_feldman_share, scalar_from_int,
  combine_loop,
}
use aequa_network.Tss.Dkg.Config.{Config, validate, validate_members, member}
use aequa_network.Tss.Dkg.Runner.{Message, Runner, new_runner, entries_of}
use aequa_network.Tss.Dkg.Silence.{silent_member_blocks}
use aequa_network.Tss.Dkg.Dispatch.{Event, received, retried, run}
use aequa_network.Tss.Dkg.Dispatch.{
  step, on_message, is_admitted, catch_up, take, dispatch, handle_commitments,
}
use aequa_network.Tss.Dkg.Epoch.{start, begin, resume, ensure_local_poly, draw_scalars, deal}
use aequa_network.Tss.Dkg.Runner.{persist, snapshot, note, clear, without}
use aequa_network.Tss.Dkg.Sending.{
  send, sign_message, broadcast_commitments, verify_sig, derive_share_key, peer_of, decrypt_share,
  broadcast_ack, up_to_from, broadcast_missing_shares, send_shares, send_share, encrypt_share,
}
use aequa_network.Tss.Dkg.Handlers.{
  on_commitments, are_points, try_process_pending, retry_share, retry_open, on_share, open_share,
  judge_share, accept_share, on_ack,
}
use aequa_network.Tss.Dkg.Finalize.{
  maybe_finalize, verdict, qualified_of, is_ready, derive, sum_commitments, sum_shares,
  save_key_share, complete,
}
use aequa_network.Base.{
  insert, lookup_or, remove_key, add_key, list_beq, string_eq, nat_eq, bytes_eq,
}
use aequa_network.Tss.Dkg.Epoch.{bump_epoch}
use aequa_network.Tss.Dkg.Finalize.{Pending, save}
use aequa_network.Tss.Dkg.Epochs.{done_is_final, abandoned_share_is_taken}
use aequa_network.Tss.Dkg.Exchange.{IsSealed, IsPaired}
use aequa_network.Tss.Dkg.Exchange.Arrival.{sent_share_arrives}
use aequa_network.Tests.Dkg.{
  last, integers, integers-IsGroup, two_points, seat, pair_of, plain, from_other, other_commits,
  other_shares, other_acks, made, whole_run, finishes,
}

abbrev trio : Config
unfolding pair_of seat
trio = record pair_of { n = 3; threshold = 1; committee = seat 3 ∷ seat 2 ∷ seat 1 ∷ [] }

-- The third member speaks, the second does not.
abbrev third_acks : Event
third_acks = received (record (from_other "ack") { from_index = 3 })

abbrev trio_made : Runner ℕ
unfolding trio made
trio_made = record made { cfg = trio }

silent_member_blocks_example : (run plain trio_made (retried false ∷ third_acks ∷ [])).done ≡ false
unfolding trio trio_made made pair_of new_runner validate validate_members contains seat
silent_member_blocks_example =
    silent_member_blocks plain trio trio_made 2 (retried false ∷ third_acks ∷ []) refl (omega arith)
      (omega arith) (λ x. absurd (omega (arith, x))) (tt, (λ x. absurd (omega (arith, x)), tt))

done_is_final_example :
    run plain made ((retried true ∷ other_acks ∷ []) ++ whole_run) ≡ run plain made whole_run
done_is_final_example = done_is_final plain made whole_run (retried true ∷ other_acks ∷ []) finishes

-- All that the node needs has come.
abbrev ready : Runner ℕ
ready = on_ack plain (from_other "ack") (run plain made (other_commits ∷ other_shares ∷ []))

abbrev keys : Pending
unfolding zeros
keys = record { epoch = 1; group_pub_key = zeros 47 ++ 6 ∷ []; share_scalar = zeros 31 ++ 12 ∷ [] }

ready_saves : verdict plain ready ≡ save keys
unfolding run step start begin resume ensure_local_poly draw_scalars deal commitments_from_poly
    eval_poly_at eval_loop scalar_from_int put_uint zeros integers last get_uint plain made pair_of
    seat new_runner validate validate_members contains member persist snapshot send sign_message
    broadcast_commitments on_message is_admitted verify_sig catch_up take dispatch
    handle_commitments on_commitments are_points try_process_pending retry_share retry_open on_share
    derive_share_key peer_of decrypt_share open_share judge_share accept_share broadcast_ack note
    clear without maybe_finalize verdict qualified_of is_ready up_to_from derive sum_commitments
    sum_shares save_key_share complete on_ack broadcast_missing_shares send_shares send_share
    encrypt_share lookup insert lookup_or remove_key add_key verify_feldman_share combine_loop
    list_beq other_shares two_points keys
ready_saves = refl

ready_epoch : ready.epoch ≡ 1
unfolding run step start begin resume ensure_local_poly draw_scalars deal commitments_from_poly
    eval_poly_at eval_loop scalar_from_int put_uint zeros integers last get_uint plain made pair_of
    seat new_runner validate validate_members contains member persist snapshot send sign_message
    broadcast_commitments on_message is_admitted verify_sig catch_up take dispatch
    handle_commitments on_commitments are_points try_process_pending retry_share retry_open on_share
    derive_share_key peer_of decrypt_share open_share judge_share accept_share broadcast_ack note
    clear without maybe_finalize verdict qualified_of is_ready up_to_from derive sum_commitments
    sum_shares save_key_share complete on_ack broadcast_missing_shares send_shares send_share
    encrypt_share lookup insert lookup_or remove_key add_key verify_feldman_share combine_loop
    list_beq other_shares two_points
ready_epoch = refl

abbrev restarted : Runner ℕ
restarted = record made {
  key_share = (complete plain keys (bump_epoch plain 2 (save_key_share keys ready))).key_share;
}

abandoned_share_is_taken_example :
    ((complete plain keys (bump_epoch plain 2 (save_key_share keys ready))).done ≡ false)
    × ((complete plain keys (bump_epoch plain 2 (save_key_share keys ready))).epoch ≡ 2)
    × ((start plain restarted).done ≡ true)
    × ((start plain restarted).result.share_scalar ≡ keys.share_scalar)
unfolding keys zeros
abandoned_share_is_taken_example =
    abandoned_share_is_taken plain ready restarted keys 2 ready_saves (omega (arith, ready_epoch))
      refl refl

plain-IsSealed : IsSealed plain
unfolding plain integers get_uint last zeros
plain-IsSealed = record {
  opened = λ k n pt _ _. refl;
  sized = λ n nonce h. ground (arith, h);
  read = λ s h. ground (arith, h);
  short = λ s. refl;
}

abbrev dealing : Runner ℕ
dealing = record made { coeffs = 3 ∷ 4 ∷ [] }

abbrev dealt_points : List Bytes
unfolding zeros
dealt_points = (zeros 47 ++ 3 ∷ []) ∷ (zeros 47 ++ 4 ∷ []) ∷ []

abbrev second : Runner ℕ
second = record made { cfg = record pair_of { index = 2 }; commitments = (1, dealt_points) ∷ [] }

-- 3 + 4x at 2.
abbrev sealed_share : Message
unfolding zeros
sealed_share = record (from_other "share") {
  from_index = 1;
  to_index = 2;
  ciphertext = zeros 31 ++ 11 ∷ [];
}

pair-IsPaired : IsPaired plain dealing second (seat 2) (seat 1) []
unfolding made pair_of seat new_runner validate validate_members contains member plain zeros
pair-IsPaired = record {
  session = refl;
  epoch = refl;
  apart = λ h. absurd (omega (arith, h));
  dealer_seat = λ h. absurd (omega (arith, h));
  receiver_seat = λ h. absurd (omega (arith, h));
  receiver_known = refl;
  dealer_known = refl;
  receiver_key = refl;
  dealer_key = refl;
  sent_secret = refl;
  read_secret = refl;
}

sent_share_arrives_example :
    (lookup dealing.cfg.index (on_share plain sealed_share second).shares ≡ some 11)
    × (contains
          (entries_of dealing.cfg.index (on_share plain sealed_share second).acks)
          second.cfg.index
        ≡ true)
unfolding run step start begin resume ensure_local_poly draw_scalars deal commitments_from_poly
    eval_poly_at eval_loop scalar_from_int put_uint zeros integers last get_uint plain made pair_of
    seat new_runner validate validate_members contains member persist snapshot send sign_message
    broadcast_commitments on_message is_admitted verify_sig catch_up take dispatch
    handle_commitments on_commitments are_points try_process_pending retry_share retry_open on_share
    derive_share_key peer_of decrypt_share open_share judge_share accept_share broadcast_ack note
    clear without maybe_finalize verdict qualified_of is_ready up_to_from derive sum_commitments
    sum_shares save_key_share complete on_ack broadcast_missing_shares send_shares send_share
    encrypt_share lookup insert lookup_or remove_key add_key verify_feldman_share combine_loop
    list_beq other_shares two_points sealed_share dealt_points
sent_share_arrives_example =
    sent_share_arrives plain integers-IsGroup plain-IsSealed dealing second (seat 2) (seat 1) []
      pair-IsPaired dealt_points 11 sealed_share refl refl (λ h. absurd (omega (arith, h))) refl
      refl refl refl
