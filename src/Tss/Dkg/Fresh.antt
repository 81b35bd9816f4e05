-- ===== src/Tss/Dkg/Fresh.antt =====
-- A node as it is made over empty stores.
use aequa_network.Base.{◌≡◌, false, [], none, some, arith}
use aequa_network.Tss.Dkg.Config.{Config}
use aequa_network.Tss.Dkg.Runner.{Runner, new_runner}

module _ {S : Type 0} where
  pub record IsFresh (c : Config) (r : Runner S) : Type 0 where
    pub settled : r.cfg ≡ c
    pub unsaved : r.saved ≡ none
    pub keyless : r.key_share ≡ none
    pub uncommitted : r.commitments ≡ []
    pub shareless : r.shares ≡ []
    pub unheard : r.pending_share ≡ []
    pub unopened : r.pending_open ≡ []
    pub unspoiled : r.bad_dealers ≡ []
    pub live : r.done ≡ false

  pub new_runner-IsFresh :
      (c : Config) (r : Runner S) → new_runner c none none ≡ some r → IsFresh c r
  unfolding new_runner
  new_runner-IsFresh c r h = ground arith
