-- ===== src/Vector/Exec.antt =====
-- Calls that change the store and may raise. What was written before a raise stays written, so the
-- state comes back beside the error too.
use nexus_rag.Base.{◌≡◌, refl, Result, ok, err}

pub data StoreError : Type 0 where
  unexpected_response value_error runtime_error : StoreError

abbrev pub Exec : Type 0 → Type 0 → Type 0
Exec S A = S → Result StoreError A × S

module _ {S A : Type 0} where
  abbrev pub pure : A → Exec S A
  pure a s = (ok a, s)

  abbrev pub lift : Result StoreError A → Exec S A
  lift r s = (r, s)

  -- a call that only reads
  abbrev pub read : (S → Result StoreError A) → Exec S A
  read f s = (f s, s)

module _ {S A B : Type 0} where
  abbrev pub continue : Result StoreError A → (A → Exec S B) → Exec S B
  continue (ok a) f s = f a s
  continue (err e) f s = (err e, s)

  infixl 10 ◌>>=◌ ◌>>◌
  abbrev pub ◌>>=◌ : Exec S A → (A → Exec S B) → Exec S B
  ◌>>=◌ m f s = continue (m s).0 f (m s).1

  abbrev pub ◌>>◌ : Exec S A → Exec S B → Exec S B
  m >> n = m >>= λ _. n

module _ {S A : Type 0} where
  -- `try: m except Exception: log`
  abbrev pub swallow : Exec S A → Exec S (Unit {0})
  swallow m s = (ok tt, (m s).1)

-- `m` returned `a` and left the store in state `t`.
abbrev pub Returns : {S A : Type 0} → Exec S A → S → A → S → Type 0
Returns m s a t = m s ≡ (ok a, t)

-- A sequence that returned went through a state in which its first call had returned.
pub >>=-Returns :
    {S A B : Type 0} (m : Exec S A) (f : A → Exec S B) (s : S) {b : B} {t : S}
    → Returns (m >>= f) s b t
    → (a : A) × (u : S) × Returns m s a u × Returns (f a) u b t
>>=-Returns {S} {A} {B} m f s {b} {t} h = go (m s) refl h
  where
    go :
        (r : Result StoreError A × S)
        → m s ≡ r
        → continue r.0 f r.1 ≡ (ok b, t)
        → (a : A) × (u : S) × Returns m s a u × Returns (f a) u b t
    go (ok a, u) e k = (a, u, e, k)
    go (err x, u) e k = cc

-- the state that a call left, as the laws name it
pub Returns-state :
    {S A : Type 0} (m : Exec S A) (s : S) {a : A} {t : S} → Returns m s a t → t ≡ (m s).1
Returns-state m s h = cc

-- A read that returned left the state as it was.
pub read-Returns :
    {S A : Type 0} (f : S → Result StoreError A) (s : S) {a : A} {t : S}
    → Returns (read f) s a t
    → (f s ≡ ok a) × (t ≡ s)
read-Returns f s h = (cc, cc)

pub pure-Returns :
    {S A : Type 0} (a : A) (s : S) {b : A} {t : S} → Returns (pure a) s b t → (b ≡ a) × (t ≡ s)
pure-Returns a s h = (cc, cc)

-- A sequence that begins with a read goes on in the same state.
pub read->>= :
    {S A B : Type 0} (f : S → Result StoreError A) (k : A → Exec S B) (s : S) {b : B} {t : S}
    → Returns (read f >>= k) s b t
    → (a : A) × (f s ≡ ok a) × Returns (k a) s b t
read->>= {S} {A} {B} f k s {b} {t} h = go (f s) refl h
  where
    go :
        (r : Result StoreError A)
        → f s ≡ r
        → continue r k s ≡ (ok b, t)
        → (a : A) × (f s ≡ ok a) × Returns (k a) s b t
    go (ok a) e q = (a, e, q)
    go (err x) e q = cc

pub lift->>= :
    {S A B : Type 0} (r : Result StoreError A) (k : A → Exec S B) (s : S) {b : B} {t : S}
    → Returns (lift r >>= k) s b t
    → (a : A) × (r ≡ ok a) × Returns (k a) s b t
lift->>= r k s h = read->>= (λ _. r) k s h

-- What holds of the state after the first call, and is kept by the rest, holds after a sequence,
-- also when it raises.
pub >>=-keeps :
    {S A B : Type 0} (P : S → Type 0) (m : Exec S A) (f : A → Exec S B) (s : S)
    → P (m s).1
    → ((a : A) (u : S) → P u → P (f a u).1)
    → P ((m >>= f) s).1
>>=-keeps {S} {A} {B} P m f s h k = go (m s) h
  where
    go : (r : Result StoreError A × S) → P r.1 → P (continue r.0 f r.1).1
    go (ok a, u) p = k a u p
    go (err e, u) p = p
