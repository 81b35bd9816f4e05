-- ===== src/Tests/Dkg.antt =====
-- A key generation between two nodes on fixed inputs: the integers stand in for the scalars and for
-- the points, and messages are neither signed nor sealed.
mod Endings
use aequa_network.Base.{
  ◌==◌, if◌then◌else◌, nat_eq, ℕ, ◌+◌, ◌*◌, ◌≤◌, ◌≡◌, ◌≢◌, ◌⊎◌, refl, String, true, false, List, [],
  ◌∷◌, ◌++◌, Option, none, some, arith, length, contains, lookup,
}
use aequa_network.Store.{put_uint, get_uint}
use aequa_network.Tss.Dkg.Curve.{Bytes, Curve, IsGroup, IsFaithful, zeros}
use aequa_network.Tss.Dkg.Feldman.{
  eval_poly_at, eval_loop, commitments_from_poly, verify_feldman_share, scalar_from_int, ok,
  combine_loop,
}
use aequa_network.Tss.Dkg.Feldman.Honest.{verify_decides_value}
use aequa_network.Tss.Dkg.Config.{Member, Config, validate, validate_members, member}
use aequa_network.Tss.Dkg.Config.Seats.{validate_fills_seats}
use aequa_network.Tss.Dkg.Runner.{Message, Crypto, Runner, new_runner, empty_result, entries_of}
use aequa_network.Tss.Dkg.Sound.{run-Sound}
use aequa_network.Tss.Dkg.Silence.{silent_member_blocks}
use aequa_network.Tss.Dkg.Outcome.Keys.{MatchesCommitments, done-MatchesCommitments}
use aequa_network.Tss.Dkg.Dispatch.{Event, received, retried, run}
use aequa_network.Tss.Dkg.Dispatch.{
  step, on_message, is_admitted, catch_up, take, dispatch, handle_commitments,
}
use aequa_network.Tss.Dkg.Epoch.{start, begin, resume, ensure_local_poly, draw_scalars, deal}
use aequa_network.Tss.Dkg.Runner.{persist, snapshot, note, clear, without}
use aequa_network.Tss.Dkg.Sending.{
  send, sign_message, broadcast_commitments, verify_sig, derive_share_key, peer_of, decrypt_share,
  broadcast_ack, up_to_from, broadcast_missing_shares, send_shares, send_share, encrypt_share,
}
use aequa_network.Tss.Dkg.Handlers.{
  on_commitments, are_points, try_process_pending, retry_share, retry_open, on_share, open_share,
  judge_share, accept_share, on_ack,
}
use aequa_network.Tss.Dkg.Finalize.{
  maybe_finalize, verdict, qualified_of, is_ready, derive, sum_commitments, sum_shares,
  save_key_share, complete,
}
use aequa_network.Base.{
  insert, lookup_or, remove_key, add_key, list_beq, string_eq, nat_eq, bytes_eq,
}
use aequa_network.Tss.Dkg.Epoch.{bump_epoch}
use aequa_network.Tss.Dkg.Finalize.{Pending, save}
use aequa_network.Tss.Dkg.Epochs.{done_is_final, abandoned_share_is_taken}
use aequa_network.Tss.Dkg.Exchange.{IsSealed, IsPaired}
use aequa_network.Tss.Dkg.Exchange.Arrival.{sent_share_arrives}

last : Bytes → Option ℕ
last [] = none
last (x ∷ []) = some x
last (x ∷ y ∷ xs) = last (y ∷ xs)

abbrev integers : Curve ℕ ℕ
unfolding get_uint last zeros
integers = record {
  from_bendian = get_uint 0;
  serialize = λ s. zeros 31 ++ s ∷ [];
  deserialize = λ bs. elim (last bs) [ none ↦ none | some x ↦ if x == 0 then none else some x ];
  mul = λ a b. some (a * b);
  add = λ a b. some (a + b);
  sub = λ a b. some a;
  inverse = λ a. a;
  generator = 1;
  infinity = 0;
  mult = λ p s. p * s;
  plus = λ p q. p + q;
  compress = λ p. zeros 47 ++ p ∷ [];
  uncompress = last;
}

integers-IsGroup : IsGroup integers
unfolding integers get_uint last zeros
integers-IsGroup = record {
  uncompress-compress = λ p. refl;
  mult-mul = λ a b d h. ground (arith, h);
  plus-add = λ a b d h. ground (arith, h);
  mult-zero = refl;
}

integers-IsFaithful : IsFaithful integers
unfolding integers get_uint last zeros
integers-IsFaithful a b h = omega (arith, h)

-- The commitments to 3 + 2x.
abbrev two_points : List Bytes
unfolding zeros
two_points = (zeros 47 ++ 3 ∷ []) ∷ (zeros 47 ++ 2 ∷ []) ∷ []

verify_decides_value_example :
    ((◌≡◌ {A = ℕ} 8 7) × (verify_feldman_share integers 8 2 two_points ≡ ok true))
    ⊎ ((◌≢◌ {A = ℕ} 8 7) × (verify_feldman_share integers 8 2 two_points ≡ ok false))
unfolding eval_poly_at eval_loop commitments_from_poly scalar_from_int put_uint integers
verify_decides_value_example =
    verify_decides_value integers integers-IsGroup integers-IsFaithful (3 ∷ 2 ∷ []) 2 7 8 two_points
      refl refl

abbrev seat : ℕ → Member
unfolding zeros
seat i = record { index = i; sig_pub = zeros 32; enc_pub = zeros 32 }

abbrev pair_of : Config
unfolding zeros
pair_of = record {
  session_id = "genesis";
  epoch = 0;
  n = 2;
  threshold = 2;
  index = 1;
  session_dir = "";
  sig_priv = zeros 64;
  enc_priv = zeros 32;
  committee = seat 2 ∷ seat 1 ∷ [];
}

validate_fills_seats_example :
    (1 ≤ pair_of.threshold)
    × (pair_of.threshold ≤ pair_of.n)
    × (1 ≤ pair_of.index)
    × (pair_of.index ≤ pair_of.n)
    × ((m : Member) × (member pair_of.committee 2 ≡ some m)
        × (m.index ≡ 2)
        × (length m.sig_pub ≡ 32)
        × (length m.enc_pub ≡ 32))
unfolding validate validate_members contains pair_of
validate_fills_seats_example = validate_fills_seats pair_of 2 refl (omega arith) (omega arith)

abbrev plain : Crypto ℕ ℕ
unfolding zeros
plain = record {
  curve = integers;
  marshal = λ m. some [];
  ed_sign = λ k b. [];
  ed_verify = λ k b s. true;
  x25519 = λ a b. some [];
  sha256 = λ b. zeros 32;
  text_bytes = λ t. [];
  nonce_size = 0;
  seal = λ k n pt. pt;
  unseal = λ k n ct. some ct;
  rand_scalar = λ i. some (i + 3);
  rand_nonce = λ i. some [];
}

-- What the other node sends.
abbrev from_other : String → Message
from_other kind = record {
  session_id = "genesis";
  epoch = 1;
  kind = kind;
  from_index = 2;
  to_index = 1;
  commitments = [];
  nonce = [];
  ciphertext = [];
  share = [];
  sig = [];
}

abbrev other_commits : Event
other_commits = received (record (from_other "commitments") { commitments = two_points })

-- Its polynomial has the value 5 at 1.
abbrev other_shares : Event
unfolding zeros
other_shares = received (record (from_other "share") { ciphertext = zeros 31 ++ 5 ∷ [] })

abbrev other_acks : Event
other_acks = received (from_other "ack")

abbrev made : Runner ℕ
unfolding new_runner validate validate_members contains
made = elim (new_runner pair_of none none) [
  | some r ↦ r
  | none ↦ record {
    cfg = pair_of;
    epoch = 0;
    coeffs = [];
    self_commitments = [];
    commitments = [];
    shares = [];
    pending_share = [];
    pending_open = [];
    acks = [];
    complaints = [];
    bad_dealers = [];
    done = false;
    finalizing = false;
    result = empty_result;
    saved = none;
    key_share = none;
    sent = [];
    draws = 0;
  }
]

-- The share comes before the commitments, and waits.
abbrev whole_run : List Event
whole_run = other_acks ∷ other_commits ∷ other_shares ∷ []

finishes : (run plain made whole_run).done ≡ true
unfolding run step start begin resume ensure_local_poly draw_scalars deal commitments_from_poly
    eval_poly_at eval_loop scalar_from_int put_uint zeros integers last get_uint plain made pair_of
    seat new_runner validate validate_members contains member persist snapshot send sign_message
    broadcast_commitments on_message is_admitted verify_sig catch_up take dispatch
    handle_commitments on_commitments are_points try_process_pending retry_share retry_open on_share
    derive_share_key peer_of decrypt_share open_share judge_share accept_share broadcast_ack note
    clear without maybe_finalize verdict qualified_of is_ready up_to_from derive sum_commitments
    sum_shares save_key_share complete on_ack broadcast_missing_shares send_shares send_share
    encrypt_share lookup insert lookup_or remove_key add_key verify_feldman_share combine_loop
    list_beq other_shares two_points
finishes = refl

made_is_new : new_runner pair_of none none ≡ some made
unfolding made new_runner validate validate_members contains pair_of
made_is_new = refl

done-MatchesCommitments_example : MatchesCommitments plain pair_of (run plain made whole_run)
unfolding plain
done-MatchesCommitments_example =
    done-MatchesCommitments plain integers-IsGroup pair_of made whole_run made_is_new finishes

-- The share of the other dealer is held, though it came first.
holds : lookup 2 (run plain made whole_run).shares ≡ some 5
unfolding run step start begin resume ensure_local_poly draw_scalars deal commitments_from_poly
    eval_poly_at eval_loop scalar_from_int put_uint zeros integers last get_uint plain made pair_of
    seat new_runner validate validate_members contains member persist snapshot send sign_message
    broadcast_commitments on_message is_admitted verify_sig catch_up take dispatch
    handle_commitments on_commitments are_points try_process_pending retry_share retry_open on_share
    derive_share_key peer_of decrypt_share open_share judge_share accept_share broadcast_ack note
    clear without maybe_finalize verdict qualified_of is_ready up_to_from derive sum_commitments
    sum_shares save_key_share complete on_ack broadcast_missing_shares send_shares send_share
    encrypt_share lookup insert lookup_or remove_key add_key verify_feldman_share combine_loop
    list_beq other_shares two_points
holds = refl

run-Sound_example :
    verify_feldman_share plain.curve 5
      (run plain made whole_run).cfg.index
      (entries_of 2 (run plain made whole_run).commitments)
    ≡ ok true
unfolding plain
run-Sound_example = run-Sound plain integers-IsGroup pair_of made whole_run made_is_new 2 5 holds
