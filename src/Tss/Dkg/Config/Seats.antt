-- ===== src/Tss/Dkg/Config/Seats.antt =====
-- A committee that passes the check seats every index exactly once.
use aequa_network.Base.{
  ℕ, zero, suc, ◌≤◌, ◌<◌, ◌≡◌, ◌≢◌, refl, false, List, [], ◌∷◌, none, some, ◌==◌, nat_eq, string_eq,
  if◌then◌else◌, length, contains, Distinct, All, arith, Bool-cases, inl, inr, Option-cases,
}
use aequa_network.Tss.Dkg.Config.{Member, Config, validate_members, validate, member}

-- The list with one value taken out.
without : ℕ → List ℕ → List ℕ
without a [] = []
without a (x ∷ xs) = if x == a then xs else x ∷ without a xs

contains-without :
    (a b : ℕ) (xs : List ℕ) → contains xs b ≡ false → contains (without a xs) b ≡ false
unfolding without contains
contains-without a b [] h = refl
contains-without a b (x ∷ xs) h = ground (arith, contains-without a b xs)

without-Distinct : (a : ℕ) (xs : List ℕ) → Distinct xs → Distinct (without a xs)
unfolding without
without-Distinct a [] h = tt
without-Distinct a (x ∷ xs) h = ground (arith, contains-without a x xs, without-Distinct a xs h.1)

length-without : (a : ℕ) (xs : List ℕ) → length xs ≤ suc (length (without a xs))
unfolding without
length-without a [] = omega arith
length-without a (x ∷ xs) = ground (arith, length-without a xs)

below_of_absent :
    (n : ℕ) (xs : List ℕ) → contains xs n ≡ false → All (λ x. x < suc n) xs → All (λ x. x < n) xs
unfolding contains
below_of_absent n [] d h = tt
below_of_absent n (x ∷ xs) d h = ground (arith, below_of_absent n xs)

without_least :
    (n : ℕ) (xs : List ℕ) → Distinct xs → All (λ x. x < suc n) xs → All (λ x. x < n) (without n xs)
unfolding without contains
without_least n [] d h = tt
without_least n (x ∷ xs) d h = elim (Bool-cases (x == n)) [
  | inl e ↦ ground (arith, e, below_of_absent n xs)
  | inr e ↦ ground (arith, e, without_least n xs d.1 h.1)
]

-- There are no more distinct numbers below `n` than `n`.
length-Distinct_le : (n : ℕ) (xs : List ℕ) → Distinct xs → All (λ x. x < n) xs → length xs ≤ n
length-Distinct_le zero [] d h = omega arith
length-Distinct_le zero (x ∷ xs) d h = absurd (omega (arith, h.0))
length-Distinct_le (suc n) xs d h = omega (
  arith,
  length-without n xs,
  length-Distinct_le n (without n xs) (without-Distinct n xs d) (without_least n xs d h),
)

-- The keys of a member have the right length, and its index is a seat.
pub record IsSeated (n : ℕ) (m : Member) : Type 0 where
  pub low : 1 ≤ m.index
  pub high : m.index ≤ n
  pub signs : length m.sig_pub ≡ 32
  pub encrypts : length m.enc_pub ≡ 32

contains-All : (a : ℕ) (xs : List ℕ) → All (λ x. a ≢ x) xs → contains xs a ≡ false
unfolding contains
contains-All a [] h = refl
contains-All a (x ∷ xs) h = ground (arith, contains-All a xs h.1)

abbrev pub indices : List Member → List ℕ
indices [] = []
indices (m ∷ ms) = m.index ∷ indices ms

All-drop_key :
    (a : ℕ) (seen xs : List ℕ)
    → All (λ x. contains (a ∷ seen) x ≡ false) xs
    → All (λ x. a ≢ x) xs × All (λ x. contains seen x ≡ false) xs
unfolding contains
All-drop_key a seen [] h = (tt, tt)
All-drop_key a seen (x ∷ xs) h = ground (arith, All-drop_key a seen xs h.1)

validate_members-IsSeated :
    (n : ℕ) (seen : List ℕ) (ms : List Member)
    → validate_members n seen ms ≡ none
    → All (IsSeated n) ms × Distinct (indices ms) × All (λ x. contains seen x ≡ false) (indices ms)
unfolding validate_members
validate_members-IsSeated n seen [] h = (tt, tt, tt)
validate_members-IsSeated n seen (m ∷ ms) h =
    let (seats, distinct, fresh) =
      validate_members-IsSeated n (m.index ∷ seen) ms (ground (arith, h)) in
    let (others, unseen) = All-drop_key m.index seen (indices ms) fresh in
    (
      (
        record {
          low = ground (arith, h);
          high = ground (arith, h);
          signs = ground (arith, h);
          encrypts = ground (arith, h);
        },
        seats,
      ),
      (contains-All m.index (indices ms) others, distinct),
      (ground (arith, h), unseen),
    )

length-indices : (ms : List Member) → length (indices ms) ≡ length ms
length-indices [] = refl
length-indices (m ∷ ms) = omega (arith, length-indices ms)

indices-below : (n : ℕ) (ms : List Member) → All (IsSeated n) ms → All (λ x. x < suc n) (indices ms)
indices-below n [] h = tt
indices-below n (m ∷ ms) h = (omega (arith, h.0.high), indices-below n ms h.1)

-- A number that no member has could be added to the indices.
absent-All : (i : ℕ) (ms : List Member) → member ms i ≡ none → contains (indices ms) i ≡ false
unfolding member contains
absent-All i [] h = refl
absent-All i (m ∷ ms) h = ground (arith, absent-All i ms)

member-IsSeated :
    (n i : ℕ) (ms : List Member) (m : Member)
    → All (IsSeated n) ms
    → member ms i ≡ some m
    → (m.index ≡ i) × IsSeated n m
unfolding member
member-IsSeated n i [] m h e = absurd (ground arith)
member-IsSeated n i (x ∷ ms) m h e = elim (Bool-cases (x.index == i)) [
  | inl f ↦ ground (arith, f, h.0)
  | inr f ↦ member-IsSeated n i ms m h.1 (ground (arith, f, e))
]

contains-zero : (n : ℕ) (ms : List Member) → All (IsSeated n) ms → contains (indices ms) 0 ≡ false
unfolding contains
contains-zero n [] h = refl
contains-zero n (m ∷ ms) h = ground (arith, h.0.low, contains-zero n ms h.1)

-- Zero is no member's index either, so an unused index would make one too many.
seat_taken :
    (n i : ℕ) (ms : List Member)
    → All (IsSeated n) ms
    → Distinct (indices ms)
    → length ms ≡ n
    → 1 ≤ i
    → i ≤ n
    → member ms i ≢ none
unfolding contains
seat_taken n i ms seats distinct full low high e = omega (
  arith,
  full,
  length-indices ms,
  length-Distinct_le (suc n) (0 ∷ i ∷ indices ms)
      (ground (arith, contains-zero n ms seats), (absent-All i ms e, distinct))
      (omega arith, (omega arith, indices-below n ms seats)),
)

-- What a configuration is worth that `Validate` accepts.
pub record IsValid (c : Config) : Type 0 where
  pub quorum : (1 ≤ c.threshold) × (c.threshold ≤ c.n)
  pub seat : (1 ≤ c.index) × (c.index ≤ c.n)
  pub signs : length c.sig_priv ≡ 64
  pub decrypts : length c.enc_priv ≡ 32
  pub seats : All (IsSeated c.n) c.committee
  pub distinct : Distinct (indices c.committee)
  pub full : length c.committee ≡ c.n

pub validate-IsValid : (c : Config) → validate c ≡ none → IsValid c
unfolding validate
validate-IsValid c h =
    let (seats, distinct, _) = validate_members-IsSeated c.n [] c.committee (ground (arith, h)) in
    record {
      quorum = ground (arith, h);
      seat = ground (arith, h);
      signs = ground (arith, h);
      decrypts = ground (arith, h);
      seats = seats;
      distinct = distinct;
      full = ground (arith, h);
    }

-- In a configuration that `Validate` accepts, the threshold and the own index lie between 1 and n,
-- and the lookup of any index from 1 to n finds a member that has this index and public keys of 32
-- bytes each: no seat of the committee is empty.
pub validate_fills_seats :
    (c : Config) (i : ℕ)
    → validate c ≡ none
    → 1 ≤ i
    → i ≤ c.n
    → (1 ≤ c.threshold)
      × (c.threshold ≤ c.n)
      × (1 ≤ c.index)
      × (c.index ≤ c.n)
      × ((m : Member) × (member c.committee i ≡ some m)
          × (m.index ≡ i)
          × (length m.sig_pub ≡ 32)
          × (length m.enc_pub ≡ 32))
validate_fills_seats c i h low high =
    let v = validate-IsValid c h in
    (
      v.quorum.0,
      v.quorum.1,
      v.seat.0,
      v.seat.1,
      elim (Option-cases (member c.committee i)) [
        | inl e ↦ absurd (seat_taken c.n i c.committee v.seats v.distinct v.full low high e)
        | inr (m, e) ↦
            let (same, s) = member-IsSeated c.n i c.committee m v.seats e in
            (m, e, same, s.signs, s.encrypts)
      ],
    )
