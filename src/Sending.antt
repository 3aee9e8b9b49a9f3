-- ===== src/Sending.antt =====
-- Which pushes an action may send: `SendsOnly P` says that each of them satisfies P, whatever the
-- environment does. One rule for each way to build an action.
use dataspace_in_a_box.Base.{String, Bool, true, false, [], ◌∷◌, if◌then◌else◌, All, All-append}
use dataspace_in_a_box.Message.{Push}
use dataspace_in_a_box.Store.Rows.{Store}
use dataspace_in_a_box.Action.{
  Result, ok, err, Env, World, Outcome, ret, halt, Act, pure, return_now, db, time_now,
  validate_outgoing_callback, push_callback, continue, or_return, ◌>>=◌,
}

pub record SendsOnly {A : Type 0} (P : Push → Type 0) (m : Act A) : Type 0 where
  pub at : (e : Env) (w : World) → All P w.sent → All P (m e w).1.sent

module _ (P : Push → Type 0) where
  module _ {A B : Type 0} where
    continue_sends :
        (o : Outcome A) (f : A → Act B) (e : Env) (w : World)
        → ((a : A) → SendsOnly P (f a))
        → All P w.sent
        → All P (continue o f e w).1.sent
    unfolding continue
    continue_sends (ret a) f e w h s = (h a).at e w s
    continue_sends halt f e w h s = s

    pub SendsOnly-bind :
        (m : Act A) (f : A → Act B)
        → SendsOnly P m
        → ((a : A) → SendsOnly P (f a))
        → SendsOnly P (m >>= f)
    unfolding ◌>>=◌
    SendsOnly-bind m f hm hf = record {
      at = λ e w s. continue_sends (m e w).0 f e (m e w).1 hf (hm.at e w s);
    }

  module _ {A : Type 0} where
    pub SendsOnly-pure : (a : A) → SendsOnly P (pure a)
    unfolding pure
    SendsOnly-pure a = record { at = λ e w s. s }

    pub SendsOnly-return_now : SendsOnly P (return_now {A = A})
    unfolding return_now
    SendsOnly-return_now = record { at = λ e w s. s }

    pub SendsOnly-db : (op : Store → Result A × Store) → SendsOnly P (db op)
    unfolding db
    SendsOnly-db op = record { at = λ e w s. s }

    pub SendsOnly-if :
        (b : Bool) (m n : Act A) → SendsOnly P m → SendsOnly P n → SendsOnly P (if b then m else n)
    SendsOnly-if true m n hm hn = hm
    SendsOnly-if false m n hm hn = hn

    pub SendsOnly-or_return : (r : Result A) → SendsOnly P (or_return r)
    unfolding or_return
    SendsOnly-or_return (ok a) = SendsOnly-pure a
    SendsOnly-or_return (err x) = SendsOnly-return_now

  pub SendsOnly-time_now : SendsOnly P time_now
  unfolding time_now
  SendsOnly-time_now = record { at = λ e w s. s }

  pub SendsOnly-validate_outgoing_callback :
      (url : String) → SendsOnly P (validate_outgoing_callback url)
  unfolding validate_outgoing_callback
  SendsOnly-validate_outgoing_callback url = record { at = λ e w s. s }

  pub SendsOnly-push_callback : (p : Push) → P p → SendsOnly P (push_callback p)
  unfolding push_callback
  SendsOnly-push_callback p h = record { at = λ e w s. All-append P w.sent (p ∷ []) s (h, tt) }

pub ruleset sending_rules = (
  SendsOnly-bind, SendsOnly-pure, SendsOnly-return_now, SendsOnly-db, SendsOnly-if,
  SendsOnly-or_return, SendsOnly-time_now, SendsOnly-validate_outgoing_callback,
  SendsOnly-push_callback,
)
