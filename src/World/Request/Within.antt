-- ===== src/World/Request/Within.antt =====
-- What every run of a request does to the state, by what its parts do: a request stays within a
-- preorder when the state that it leaves is related to the one that it got, however it ends.
use corporate_lawyers_backen.Prelude.{Bool, true, false, Option, none, some}
use corporate_lawyers_backen.World.Request.{
  HttpError, Ended, ok, err, ◌>>=◌, pure, throw, guard, need, when, get, modify, final,
}

pub record Preorder {ℓ} (S : Type ℓ) : Type (ℓ + 1) where
  pub related : S → S → Type ℓ
  pub still : {s : S} → related s s
  pub onward : {s t u : S} → related s t → related t u → related s u

module _ {ℓ} {S : Type ℓ} (R : Preorder S) where
  pub record Within {μ} {A : Type μ} (m : S → Ended S A) : Type ℓ where
    pub at_state : (s : S) → R.related s (final (m s))

  -- The rule for `>>=` at one state.
  pub bind_ended {μ ν} :
      {A : Type μ} {B : Type ν} (s : S) (e : Ended S A) (f : A → S → Ended S B)
      → R.related s (final e)
      → ((a : A) → Within (f a))
      → R.related s (final (elim e [ ok a w ↦ f a w | err x w ↦ err x w ]))
  bind_ended s (ok a w) f h k = R.onward h ((k a).at_state w)
  bind_ended s (err x w) f h k = h

  pub bind-Within {μ ν} :
      {A : Type μ} {B : Type ν} (m : S → Ended S A) (f : A → S → Ended S B)
      → Within m
      → ((a : A) → Within (f a))
      → Within (m >>= f)
  bind-Within m f h k = record { at_state = λ s. bind_ended s (m s) f (h.at_state s) k }

  pub pure-Within {μ} : {A : Type μ} (a : A) → Within (pure a)
  pure-Within a = record { at_state = λ s. R.still }

  pub throw-Within {μ} : {A : Type μ} (e : HttpError) → Within {A = A} (throw e)
  throw-Within e = record { at_state = λ s. R.still }

  pub get-Within : Within get
  get-Within = record { at_state = λ s. R.still }

  pub need-Within {μ} : {A : Type μ} (o : Option A) (e : HttpError) → Within (need o e)
  need-Within none e = record { at_state = λ s. R.still }
  need-Within (some a) e = record { at_state = λ s. R.still }

  pub guard-Within : (b : Bool) (e : HttpError) → Within (guard b e)
  guard-Within true e = record { at_state = λ s. R.still }
  guard-Within false e = record { at_state = λ s. R.still }

  pub modify-Within : (f : S → S) → ((s : S) → R.related s (f s)) → Within (modify f)
  modify-Within f h = record { at_state = h }

  pub when-Within : (b : Bool) (m : S → Ended S (Unit {0})) → Within m → Within (when b m)
  when-Within true m h = record { at_state = h.at_state }
  when-Within false m h = record { at_state = λ s. R.still }

pub ruleset within_rules =
    (bind-Within, pure-Within, throw-Within, get-Within, need-Within, guard-Within, when-Within)
