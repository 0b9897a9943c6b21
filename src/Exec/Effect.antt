-- ===== src/Exec/Effect.antt =====
-- What an action may do to the world: a reflexive and transitive relation between the world before
-- it and the world after it, whether it returns or raises. One rule for each way to build an action.
use claim_automation_cloud.Prelude.{Bool, true, false, Option, none, some, if◌then◌else◌}
use claim_automation_cloud.Exec.{
  Error, Result, ok, err, Exec, pure, raise, lift, or_raise, ◌>>=◌, try_except, finally,
}

pub record Effect (W : Type 0) : Type 1 where
  pub rel : W → W → Type 0
  pub still : (w : W) → rel w w
  pub chain : {u v w : W} → rel u v → rel v w → rel u w

pub record Within {W A : Type 0} (f : Effect W) (m : Exec W A) : Type 0 where
  pub bound : (w : W) → f.rel w (m w).1

module _ {W A : Type 0} {f : Effect W} where
  pub Within-pure : (a : A) → Within f (pure a)
  unfolding pure
  Within-pure a = record { bound = f.still }

  pub Within-raise : (e : Error) → Within f (raise {A = A} e)
  unfolding raise
  Within-raise e = record { bound = f.still }

  pub Within-lift : (r : Result A) → Within f (lift r)
  unfolding lift
  Within-lift r = record { bound = f.still }

  pub Within-or_raise : (o : Option A) (e : Error) → Within f (or_raise o e)
  unfolding or_raise
  Within-or_raise none e = Within-raise e
  Within-or_raise (some a) e = Within-pure a

  pub Within-if :
      (b : Bool) (m n : Exec W A) → Within f m → Within f n → Within f (if b then m else n)
  Within-if true m n left right = left
  Within-if false m n left right = right

  pub Within-try_except :
      (m : Exec W A) (h : Error → Exec W A)
      → Within f m
      → ((e : Error) → Within f (h e))
      → Within f (try_except m h)
  unfolding try_except
  Within-try_except m h first second = record {
    bound = λ w. let (r, v) = m w in f.chain (first.bound w) (rest r v);
  }
    where
      rest : (r : Result A) (v : W) → f.rel v (try_except (λ _. (r, v)) h v).1
      rest (ok a) v = f.still v
      rest (err e) v = (second e).bound v

  pub Within-finally :
      (m : Exec W A) (k : Exec W (Unit {0})) → Within f m → Within f k → Within f (finally m k)
  unfolding finally
  Within-finally m k first second = record {
    bound = λ w. f.chain (first.bound w) (second.bound (m w).1);
  }

module _ {W A B : Type 0} {f : Effect W} where
  pub Within-bind :
      (m : Exec W A) (k : A → Exec W B)
      → Within f m
      → ((a : A) → Within f (k a))
      → Within f (m >>= k)
  unfolding ◌>>=◌
  Within-bind m k first second = record {
    bound = λ w. let (r, v) = m w in f.chain (first.bound w) (rest r v);
  }
    where
      rest : (r : Result A) (v : W) → f.rel v (((λ _. (r, v)) >>= k) v).1
      rest (ok a) v = (second a).bound v
      rest (err e) v = f.still v

pub ruleset effect_rules = (
  Within-pure, Within-raise, Within-lift, Within-or_raise, Within-if, Within-try_except,
  Within-finally, Within-bind,
)
