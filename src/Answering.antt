-- ===== src/Answering.antt =====
-- How often an action answers its request. `Quiet`: never. `Guards`: once where it returns from
-- the handler, never where it goes on. `Answers`: exactly once. One rule for each way to build an
-- action; none of them assumes anything of the environment.
use dataspace_in_a_box.Base.{
  String, ◌≡◌, refl, sym, ◌∙◌, Bool, true, false, Option, none, some, List, [], ◌∷◌, ◌++◌,
  if◌then◌else◌,
}
use dataspace_in_a_box.Message.{Reply}
use dataspace_in_a_box.Store.Rows.{Store}
use dataspace_in_a_box.Task.{Task}
use dataspace_in_a_box.Action.{
  Result, ok, err, Env, World, Outcome, ret, halt, Act, pure, return_now, db, time_now, new_uuid,
  validate_outgoing_callback, write_reply, spawn, continue, require, or_500, or_reply, ◌>>=◌, ◌>>◌,
}

-- Exactly one reply more.
abbrev pub OneMore : List Reply → List Reply → Type 0
OneMore before after = (reply : Reply) × (after ≡ before ++ reply ∷ [])

module _ {A : Type 0} where
  abbrev pub Kept : Outcome A → List Reply → List Reply → Type 0
  Kept (ret a) before after = after ≡ before
  Kept halt before after = OneMore before after

  pub record Quiet (m : Act A) : Type 0 where
    pub at : (e : Env) (w : World) → (m e w).1.replies ≡ w.replies

  pub record Guards (m : Act A) : Type 0 where
    pub at : (e : Env) (w : World) → Kept (m e w).0 w.replies (m e w).1.replies

  pub record Answers (m : Act A) : Type 0 where
    pub at : (e : Env) (w : World) → OneMore w.replies (m e w).1.replies

module _ {A B : Type 0} where
  continue-Quiet :
      (o : Outcome A) (f : A → Act B) (e : Env) (w : World)
      → ((a : A) → Quiet (f a))
      → (continue o f e w).1.replies ≡ w.replies
  unfolding continue
  continue-Quiet (ret a) f e w h = (h a).at e w
  continue-Quiet halt f e w h = refl

  pub Quiet-bind : (m : Act A) (f : A → Act B) → Quiet m → ((a : A) → Quiet (f a)) → Quiet (m >>= f)
  unfolding ◌>>=◌
  Quiet-bind m f hm hf = record {
    at = λ e w. continue-Quiet (m e w).0 f e (m e w).1 hf ∙ hm.at e w;
  }

  continue-Guards :
      (o : Outcome A) (f : A → Act B) (e : Env) (w : World) (before : List Reply)
      → Kept o before w.replies
      → ((a : A) → Guards (f a))
      → Kept (continue o f e w).0 before (continue o f e w).1.replies
  unfolding continue
  continue-Guards (ret a) f e w before k h = rw (sym k) ((h a).at e w)
  continue-Guards halt f e w before k h = k

  pub Guards-bind :
      (m : Act A) (f : A → Act B) → Guards m → ((a : A) → Guards (f a)) → Guards (m >>= f)
  unfolding ◌>>=◌
  Guards-bind m f hm hf = record {
    at = λ e w. continue-Guards (m e w).0 f e (m e w).1 w.replies (hm.at e w) hf;
  }

  continue-Answers :
      (o : Outcome A) (f : A → Act B) (e : Env) (w : World) (before : List Reply)
      → Kept o before w.replies
      → ((a : A) → Answers (f a))
      → OneMore before (continue o f e w).1.replies
  unfolding continue
  continue-Answers (ret a) f e w before k h = rw (sym k) ((h a).at e w)
  continue-Answers halt f e w before k h = k

  -- A check, and then a block that answers.
  pub Answers-bind :
      (m : Act A) (f : A → Act B) → Guards m → ((a : A) → Answers (f a)) → Answers (m >>= f)
  unfolding ◌>>=◌
  Answers-bind m f hm hf = record {
    at = λ e w. continue-Answers (m e w).0 f e (m e w).1 w.replies (hm.at e w) hf;
  }

module _ {A : Type 0} where
  -- The answer, and then a block that does not answer.
  pub Answers-reply :
      (r : Reply) (f : Unit {0} → Act A)
      → ((u : Unit {0}) → Quiet (f u))
      → Answers (write_reply r >>= f)
  unfolding ◌>>=◌ write_reply
  Answers-reply r f h = record { at = λ e w. (r, (h tt).at e _) }

  pub Guards-refuse : (r : Reply) → Guards (write_reply r >> return_now {A = A})
  unfolding ◌>>=◌ write_reply return_now
  Guards-refuse r = record { at = λ e w. (r, refl) }

  pub Quiet-pure : (a : A) → Quiet (pure a)
  unfolding pure
  Quiet-pure a = record { at = λ e w. refl }

  pub Guards-pure : (a : A) → Guards (pure a)
  unfolding pure
  Guards-pure a = record { at = λ e w. refl }

  pub Guards-db : (op : Store → Result A × Store) → Guards (db op)
  unfolding db
  Guards-db op = record { at = λ e w. refl }

  pub Guards-if : (b : Bool) (m n : Act A) → Guards m → Guards n → Guards (if b then m else n)
  Guards-if true m n hm hn = hm
  Guards-if false m n hm hn = hn

  pub Quiet-if : (b : Bool) (m n : Act A) → Quiet m → Quiet n → Quiet (if b then m else n)
  Quiet-if true m n hm hn = hm
  Quiet-if false m n hm hn = hn

  pub Guards-or_500 : (r : Result A) → Guards (or_500 r)
  unfolding or_500
  Guards-or_500 (ok a) = Guards-pure a
  Guards-or_500 (err x) = Guards-refuse _

  pub Guards-or_reply : (o : Option A) (reply : Reply) → Guards (or_reply o reply)
  unfolding or_reply
  Guards-or_reply (some a) reply = Guards-pure a
  Guards-or_reply none reply = Guards-refuse reply

pub Quiet-spawn : (t : Task) → Quiet (spawn t)
unfolding spawn
Quiet-spawn t = record { at = λ e w. refl }

pub Answers-write_reply : (r : Reply) → Answers (write_reply r)
unfolding write_reply
Answers-write_reply r = record { at = λ e w. (r, refl) }

pub Guards-time_now : Guards time_now
unfolding time_now
Guards-time_now = record { at = λ e w. refl }

pub Guards-new_uuid : Guards new_uuid
unfolding new_uuid
Guards-new_uuid = record { at = λ e w. refl }

pub Guards-validate_outgoing_callback : (url : String) → Guards (validate_outgoing_callback url)
unfolding validate_outgoing_callback
Guards-validate_outgoing_callback url = record { at = λ e w. refl }

pub Guards-require : (test : Bool) (reply : Reply) → Guards (require test reply)
unfolding require
Guards-require true reply = Guards-pure tt
Guards-require false reply = Guards-refuse reply

pub ruleset answering_rules = (
  Answers-reply, Answers-write_reply, Answers-bind, Guards-bind, Guards-refuse, Guards-pure,
  Guards-db, Guards-if, Guards-or_500, Guards-or_reply, Guards-time_now, Guards-new_uuid,
  Guards-validate_outgoing_callback, Guards-require, Quiet-pure, Quiet-if, Quiet-spawn, Quiet-bind,
)
