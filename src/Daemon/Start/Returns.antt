-- ===== src/Daemon/Start/Returns.antt =====
-- What the value of a sequence of parts of `main` in cmd/amon/main.go depends on.
use amon.Common.{◌≡◌, refl, sym, ap, ◌∙◌, ◌↔◌, Option, none, some}
use amon.Daemon.Start.{World, Main, followed_by, ◌>>=◌, ◌>>◌}

-- A part of `main` gives a value exactly if `P` holds of it, whatever the state is.
pub record Returns {A : Type 0} (m : Main A) (P : A → Type 0) : Type 0 where
  pub at : (w : World) (a : A) → ((m w).0 ≡ some a) ↔ P a

pub some-inj : {A : Type 0} {a b : A} → some a ≡ some b → a ≡ b
some-inj {A} {a} e = ap (λ o. elim o [ none ↦ a | some x ↦ x ]) e

pub >>=-Returns :
    {A B : Type 0} {P : A → Type 0} {Q : A → B → Type 0} (m : Main A) (f : A → Main B)
    → Returns m P
    → ((a : A) → Returns (f a) (Q a))
    → Returns (m >>= f) (λ b. (a : A) × P a × Q a b)
>>=-Returns {A} {B} {P} {Q} m f hm hf = record { at = λ w b. go w b (m w).0 (m w).1 refl }
  where
    go :
        (w : World) (b : B) (o : Option A) (w' : World)
        → (m w).0 ≡ o
        → ((followed_by (o, w') f).0 ≡ some b) ↔ ((a : A) × P a × Q a b)
    go w b none w' e = (λ h. absurd (cc h), λ (a, p, q). absurd (cc (e, (hm.at w a).1 p)))
    go w b (some a) w' e = (
      λ h. (a, (hm.at w a).0 e, ((hf a).at w' b).0 h),
      λ (a', p, q).
          let same : a ≡ a' = some-inj (sym e ∙ (hm.at w a').1 p) in
          rw same (((hf a').at w' b).1 q),
    )

-- A part that gives a value in any state.
pub record Always (m : Main Unit) : Type 0 where
  pub at : (w : World) → (m w).0 ≡ some tt

pub quiet-Returns :
    {B : Type 0} {Q : B → Type 0} (m : Main Unit) (n : Main B)
    → Always m
    → Returns n Q
    → Returns (m >> n) Q
quiet-Returns {B} {Q} m n hm hn = record { at = λ w b. go b (m w).0 (m w).1 (hm.at w) }
  where
    go :
        (b : B) (o : Option Unit) (w' : World)
        → o ≡ some tt
        → ((followed_by (o, w') (λ a. n)).0 ≡ some b) ↔ Q b
    go b none w' e = absurd (cc e)
    go b (some a) w' e = hn.at w' b

-- A part that succeeds exactly if `P` holds.
abbrev pub Needs : Main Unit → Type 0 → Type 0
Needs m P = Returns m (λ a. P)

pub then-Returns :
    {B : Type 0} {P : Type 0} {Q : B → Type 0} (m : Main Unit) (n : Main B)
    → Needs m P
    → Returns n Q
    → Returns (m >> n) (λ b. P × Q b)
then-Returns {B} {P} {Q} m n hm hn =
    let both = >>=-Returns m (λ a. n) hm (λ a. hn) in
    record {
      at = λ w b. (
        λ x. (((both.at w b).0 x).1, ((both.at w b).0 x).2),
        λ x. (both.at w b).1 (tt, x.0, x.1),
      );
    }
