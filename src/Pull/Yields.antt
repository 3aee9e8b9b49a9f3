-- ===== src/Pull/Yields.antt =====
-- What an action returns: `Yields P m` says that it returns, and a value that satisfies P, whatever
-- the environment does.
use dataspace_in_a_box.Base.{◌≡◌, refl, String, Bool, true, false, if◌then◌else◌}
use dataspace_in_a_box.Action.{
  Result, Env, World, Outcome, ret, Act, pure, db, time_now, validate_outgoing_callback, continue,
  ◌>>=◌,
}
use dataspace_in_a_box.Store.Rows.{Store}

pub record Yields {A : Type 0} (P : A → Type 0) (m : Act A) : Type 0 where
  pub at : (e : Env) (w : World) → (a : A) × ((m e w).0 ≡ ret a) × P a

abbrev pub Anything : {A : Type 0} → A → Type 0
Anything a = Unit

module _ {A B : Type 0} where
  continue-Yields :
      (P : B → Type 0) (o : Outcome A) (f : A → Act B) (e : Env) (w : World) (a : A)
      → o ≡ ret a
      → Yields P (f a)
      → (b : B) × ((continue o f e w).0 ≡ ret b) × P b
  unfolding continue
  continue-Yields P o f e w a h y = rw h (y.at e w)

  pub Yields-bind :
      (Q : A → Type 0) (P : B → Type 0) (m : Act A) (f : A → Act B)
      → Yields Q m
      → ((a : A) → Q a → Yields P (f a))
      → Yields P (m >>= f)
  unfolding ◌>>=◌
  Yields-bind Q P m f hm hf = record {
    at = λ e w. let (a, h, q) = hm.at e w in continue-Yields P (m e w).0 f e (m e w).1 a h (hf a q);
  }

  -- The same, where nothing is said of the first value.
  pub Yields-after :
      (P : B → Type 0) (m : Act A) (f : A → Act B)
      → Yields Anything m
      → ((a : A) → Yields P (f a))
      → Yields P (m >>= f)
  Yields-after P m f hm hf = Yields-bind Anything P m f hm (λ a q. hf a)

module _ {A : Type 0} where
  pub Yields-pure : (P : A → Type 0) (a : A) → P a → Yields P (pure a)
  unfolding pure
  Yields-pure P a h = record { at = λ e w. (a, refl, h) }

  pub Yields-db : (op : Store → Result A × Store) → Yields Anything (db op)
  unfolding db
  Yields-db op = record { at = λ e w. (_, refl, tt) }

  pub Yields-if :
      (P : A → Type 0) (b : Bool) (m n : Act A)
      → Yields P m
      → Yields P n
      → Yields P (if b then m else n)
  Yields-if P true m n hm hn = hm
  Yields-if P false m n hm hn = hn

pub Yields-time_now : Yields Anything time_now
unfolding time_now
Yields-time_now = record { at = λ e w. (_, refl, tt) }

pub Yields-validate_outgoing_callback :
    (url : String) → Yields Anything (validate_outgoing_callback url)
unfolding validate_outgoing_callback
Yields-validate_outgoing_callback url = record { at = λ e w. (_, refl, tt) }

pub ruleset yields_rules =
    (Yields-after, Yields-if, Yields-db, Yields-time_now, Yields-validate_outgoing_callback)
