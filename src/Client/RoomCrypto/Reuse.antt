-- ===== src/Client/RoomCrypto/Reuse.antt =====
-- No chain position is ever sealed at twice: not across failed writes, quits and crashes, restores,
-- rotations or views learned from others.
use bencchat.Prelude.{
  ℕ, ◌+◌, ◌%◌, ◌^◌, ◌≤◌, ◌<◌, ◌≡◌, ◌≢◌, refl, sym, ap, arith, Option, none, some, List, [], ◌∷◌,
  ltb, if◌then◌else◌, All,
}
use bencchat.Prelude.Bytes.{Bytes}
use bencchat.E2ee.Crypto.{Crypto, IsCrypto}
use bencchat.E2ee.Ratchet.{Chain, view, next}
use bencchat.E2ee.ChainCodec.RoundTrip.{IsWellFormed}
use bencchat.Client.RoomCrypto.{RoomKeys, chain_reservation_block, stored_out}
use bencchat.Client.RoomCrypto.Durable.{chain_part, restored, next-IsWellFormed, stored_out_lem}

-- A position that a ciphertext names: the chain's name and the index.
abbrev pub Used : Type 0
Used = List (Bytes × ℕ)

abbrev pub Below : Bytes → ℕ → Used → Type 0
Below id n = All (λ p. p.0 ≡ id → p.1 < n)

abbrev pub Distinct : Used → Type 0
Distinct [] = Unit {0}
Distinct (p ∷ ps) = All (λ q. q ≢ p) ps × Distinct ps

-- The live chain stands above what was sealed with it, and is promised a block at most.
abbrev pub LiveOk : Option Chain → ℕ → Used → Type 0
LiveOk none r u = Unit {0}
LiveOk (some c) r u =
    IsWellFormed (view c)
    × Below c.id c.index u
    × (c.index ≤ r)
    × (r ≤ c.index + chain_reservation_block)
    × (r < 2 ^ 32)

-- So does the stored one.
abbrev pub StoredOk : Option (Chain × ℕ) → Used → Type 0
StoredOk none u = Unit {0}
StoredOk (some (d, n)) u = IsWellFormed (view d) × Below d.id d.index u × (n ≤ d.index)

abbrev pub Holds : Bytes → ℕ → Option (Chain × ℕ) → Type 0
Holds id r none = ⊥
Holds id r (some (d, n)) = (id ≡ d.id) × (r ≤ d.index)

-- A position may be sealed at only where the disk stands above all that was promised.
abbrev pub PromisedOk : Option Chain → ℕ → Option (Chain × ℕ) → Type 0
PromisedOk none r k = Unit {0}
PromisedOk (some c) r k = c.index < r → Holds c.id r k

pub record IsSafe (p : Option Chain × ℕ) (k : Option (Chain × ℕ)) (u : Used) : Type 0 where
  pub live : LiveOk p.0 p.1 u
  pub kept : StoredOk k u
  pub promised : PromisedOk p.0 p.1 k
  pub distinct : Distinct u

Below-mono : (id : Bytes) (m n : ℕ) (u : Used) → m ≤ n → Below id m u → Below id n u
Below-mono id m n [] h b = tt
Below-mono id m n (p ∷ u) h b = (λ e. omega (arith, b.0 e), Below-mono id m n u h b.1)

Below-fresh : (id : Bytes) (n : ℕ) (u : Used) → Below id n u → All (λ q. q ≢ (id, n)) u
Below-fresh id n [] b = tt
Below-fresh id n (p ∷ u) b = (
  λ e. absurd (omega (arith, b.0 (ap (λ q. q.0) e), ap (λ (q : Bytes × ℕ). q.1) e)),
  Below-fresh id n u b.1,
)

StoredOk-sealed :
    (id : Bytes) (i r : ℕ) (k : Option (Chain × ℕ)) (u : Used)
    → i < r
    → StoredOk k u
    → Holds id r k
    → StoredOk k ((id, i) ∷ u)
StoredOk-sealed id i r none u lt s h = absurd h
StoredOk-sealed id i r (some (d, n)) u lt s h = (s.0, (λ _. omega (arith, h.1), s.1), s.2)

module _ (c : Crypto) (laws : IsCrypto c) where
  -- The chain moves past a position that has been promised, whether or not it was sealed at.
  pub IsSafe-next :
      (ch : Chain) (r : ℕ) (k : Option (Chain × ℕ)) (u : Used)
      → ch.index < r
      → IsSafe (some ch, r) k u
      → IsSafe (some (next c.hmac ch).2, r) k u
  unfolding next view
  IsSafe-next ch r k u lt s =
      let (wf, below, le, near, fits) = s.live in
      record {
        live = (
          next-IsWellFormed c laws ch wf (omega arith),
          Below-mono ch.id ch.index ((ch.index + 1) % 2 ^ 32) u (omega arith) below,
          omega arith,
          omega arith,
          fits,
        );
        kept = s.kept;
        promised = λ _. s.promised lt;
        distinct = s.distinct;
      }

  -- A ciphertext at that position is new.
  pub IsSafe-sealed :
      (ch : Chain) (r : ℕ) (k : Option (Chain × ℕ)) (u : Used)
      → ch.index < r
      → IsSafe (some ch, r) k u
      → IsSafe (some (next c.hmac ch).2, r) k ((ch.id, ch.index) ∷ u)
  unfolding next view
  IsSafe-sealed ch r k u lt s =
      let moved = IsSafe-next ch r k u lt s in
      let (wf, below, le, near, fits) = moved.live in
      record {
        live = (wf, (λ _. omega arith, below), le, near, fits);
        kept = StoredOk-sealed ch.id ch.index r k u lt s.kept (s.promised lt);
        promised = moved.promised;
        distinct = (Below-fresh ch.id ch.index u s.live.1, s.distinct);
      }

  -- After a save.
  pub IsSafe-saved :
      (ch : Chain) (r : ℕ) (u : Used)
      → LiveOk (some ch) r u
      → Distinct u
      → IsSafe (some ch, r) (some (stored_out c.hmac ch r, r)) u
  IsSafe-saved ch r u live distinct =
      let (wf, below, le, near, fits) = live in
      let (named, wound, wf') = stored_out_lem c laws ch r wf le near fits in
      record {
        live = live;
        kept =
            (wf', rw (named, wound) (Below-mono ch.id ch.index r u le below), omega (arith, wound));
        promised = λ _. (sym named, omega (arith, wound));
        distinct = distinct;
      }

  -- After a restore.
  pub IsSafe-restored :
      (rk : RoomKeys) (k : Option (Chain × ℕ)) (u : Used)
      → IsSafe (chain_part rk) k u
      → IsSafe (restored k rk) k u
  IsSafe-restored rk none u s = s
  IsSafe-restored rk (some (d, n)) u s =
      let (wf, below, le) = s.kept in
      let r : (if ltb n d.index then d.index else n) ≡ d.index = ground arith in
      let range : d.index < 2 ^ 32 = unfold view in wf.index_range in
      record {
        live = (wf, below, omega arith, omega arith, omega arith);
        kept = s.kept;
        promised = λ _. (refl, omega arith);
        distinct = s.distinct;
      }
