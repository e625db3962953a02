-- ===== src/Live/Run.antt =====
-- Calls that change a state and may fail: a monad over the state S, and what a run that succeeds went
-- through.
use hfmcbot.Prelude.{◌≡◌, refl, Bool, true, false, arith}
use hfmcbot.Exec.{rejected}
use hfmcbot.Live.Rpc.{Reply, ok, err}

abbrev pub Run : Type 0 → Type 0 → Type 0
Run S A = S → S × Reply A

-- the `?` on a reply
abbrev pub follow : {S A B : Type 0} → S × Reply A → (A → Run S B) → S × Reply B
follow (s, ok a) f = f a s
follow (s, err e) f = (s, err e)

infixl 5 ◌>>=◌ ◌>>◌
unfoldable pub ◌>>=◌ : {S A B : Type 0} → Run S A → (A → Run S B) → Run S B
◌>>=◌ m f s = follow (m s) f

unfoldable pub ◌>>◌ : {S B : Type 0} → Run S (Unit {0}) → Run S B → Run S B
unfolding ◌>>=◌
m >> k = m >>= λ _. k

abbrev pub pure : {S A : Type 0} → A → Run S A
pure a s = (s, ok a)

abbrev pub get : {S : Type 0} → Run S S
get s = (s, ok s)

abbrev pub of_reply : {S A : Type 0} → Reply A → Run S A
of_reply r s = (s, r)

-- `Rejected` where the test fails
unfoldable pub require : {S : Type 0} → Bool → Run S (Unit {0})
require true s = (s, ok tt)
require false s = (s, err rejected)

module _ {S : Type 0} (P : S → Type 0) where
  -- The call keeps the predicate, whether it fails or not.
  abbrev pub Keeps : {A : Type 0} → Run S A → Type 0
  Keeps m = (s : S) → P s → P (m s).0

  Keeps-follow :
      {A B : Type 0} (r : S × Reply A) (f : A → Run S B)
      → P r.0
      → ((a : A) → Keeps (f a))
      → P (follow r f).0
  Keeps-follow (s, ok a) f p k = k a s p
  Keeps-follow (s, err e) f p k = p

  pub Keeps-bind :
      {A B : Type 0} (m : Run S A) (f : A → Run S B)
      → Keeps m
      → ((a : A) → Keeps (f a))
      → Keeps (m >>= f)
  unfolding ◌>>=◌
  Keeps-bind m f h k s p = Keeps-follow (m s) f (h s p) k

  pub Keeps-then :
      {B : Type 0} (m : Run S (Unit {0})) (k : Run S B) → Keeps m → Keeps k → Keeps (m >> k)
  unfolding ◌>>◌
  Keeps-then m k h h' s p = Keeps-follow (m s) (λ _. k) (h s p) (λ _. h')

  pub Keeps-get : {B : Type 0} (f : S → Run S B) → ((s : S) → P s → P (f s s).0) → Keeps (get >>= f)
  unfolding ◌>>=◌
  Keeps-get f h s p = h s p

follow-ok :
    {S A B : Type 0} (r : S × Reply A) (f : A → Run S B) (s' : S) (b : B)
    → follow r f ≡ (s', ok b)
    → (a : A) × (t : S) × (r ≡ (t, ok a)) × (f a t ≡ (s', ok b))
follow-ok (t, ok a) f s' b h = (a, t, refl, h)
follow-ok (t, err e) f s' b h = ground arith

-- what a chain of calls went through where it succeeds
pub bind-ok :
    {S A B : Type 0} (m : Run S A) (f : A → Run S B) (s s' : S) (b : B)
    → (m >>= f) s ≡ (s', ok b)
    → (a : A) × (t : S) × (m s ≡ (t, ok a)) × (f a t ≡ (s', ok b))
unfolding ◌>>=◌
bind-ok m f s s' b h = follow-ok (m s) f s' b h

pub then-ok :
    {S B : Type 0} (m : Run S (Unit {0})) (k : Run S B) (s s' : S) (b : B)
    → (m >> k) s ≡ (s', ok b)
    → (t : S) × (m s ≡ (t, ok tt)) × (k t ≡ (s', ok b))
unfolding ◌>>◌
then-ok m k s s' b h = let (_, t, e, e') = bind-ok m (λ _. k) s s' b h in (t, e, e')

pub get-ok :
    {S B : Type 0} (f : S → Run S B) (s : S) (r : S × Reply B) → (get >>= f) s ≡ r → f s s ≡ r
unfolding ◌>>=◌
get-ok f s r h = h

pub require-ok : {S : Type 0} (b : Bool) (s t : S) → require b s ≡ (t, ok tt) → b ≡ true
unfolding require
require-ok true s t h = refl
require-ok false s t h = ground arith
