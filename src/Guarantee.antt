-- ===== src/Guarantee.antt =====
-- Rely and guarantee. An action is safe when, whatever the other goroutines do between its effects
-- as long as they too let the database evolve, it lets the database evolve and starts only
-- goroutines with an admissible argument. One rule for each way to build an action.
use mathlib.Core.Path.{subst}
use dataspace_in_a_box.Base.{
  ℕ, String, ◌≡◌, refl, sym, Bool, true, false, Option, none, some, [], ◌∷◌, if◌then◌else◌, All,
  All-append,
}
use dataspace_in_a_box.Message.{Push, Reply}
use dataspace_in_a_box.Store.Rows.{Store}
use dataspace_in_a_box.Store.Evolution.{StoreEvolves, StoreEvolves-refl, StoreEvolves-trans}
use dataspace_in_a_box.Negotiation.State.{
  NegotiationState, requested, offered, accepted, agreed, ◌⟶◌,
}
use dataspace_in_a_box.Negotiation.Decision.{NegotiationOutcome}
use dataspace_in_a_box.Task.{
  Task, dispatch, push_and_store, start_negotiation, react_to_offer, react_to_agreement,
}
use dataspace_in_a_box.Action.{
  Result, ok, err, failed, Env, World, Outcome, ret, halt, Act, pure, return_now, db, time_now,
  new_uuid, validate_outgoing_callback, push_callback, send_opening, write_reply, spawn, continue,
  require, or_500, or_reply, or_return, ◌>>=◌,
}

-- A routing decision is carried out from REQUESTED, or from ACCEPTED where it pushes no offer.
abbrev pub CanDispatch : NegotiationState → NegotiationOutcome → Type 0
CanDispatch requested outcome = Unit
CanDispatch accepted outcome = outcome.push_offer ≡ false
CanDispatch _ outcome = ⊥

-- The argument with which a goroutine may be started.
abbrev pub Admissible : Task → Type 0
Admissible (dispatch n outcome) = CanDispatch n.state outcome
Admissible (push_and_store n state path message) = n.state ⟶ state
Admissible (start_negotiation n) = n.state ≡ requested
Admissible (react_to_offer n unenforceable) = n.state ≡ offered
Admissible (react_to_agreement n unenforceable wrong_target) = n.state ≡ agreed
Admissible _ = Unit

abbrev pub Rely : Env → Type 0
Rely e = (k : ℕ) (s : Store) → StoreEvolves s (e.others k s)

-- From the world `w` to the world `w'`.
pub record Grows (w w' : World) : Type 0 where
  pub store : StoreEvolves w.store w'.store
  pub tasks : All Admissible w.spawned → All Admissible w'.spawned

pub Grows-refl : (w : World) → Grows w w
Grows-refl w = record { store = StoreEvolves-refl w.store; tasks = λ h. h }

pub Grows-trans : (a b c : World) → Grows a b → Grows b c → Grows a c
Grows-trans a b c p q = record {
  store = StoreEvolves-trans a.store b.store c.store p.store q.store;
  tasks = λ h. q.tasks (p.tasks h);
}

pub record Safe {A : Type 0} (m : Act A) : Type 0 where
  pub at : (e : Env) → Rely e → (w : World) → Grows w (m e w).1

-- A database call alone.
pub record Moves {A : Type 0} (op : Store → Result A × Store) : Type 0 where
  pub moves_at : (s : Store) → StoreEvolves s (op s).1

module _ {A : Type 0} where
  pub Safe-pure : (a : A) → Safe (pure a)
  unfolding pure
  Safe-pure a = record { at = λ e rely w. Grows-refl w }

  pub Safe-return_now : Safe (return_now {A = A})
  unfolding return_now
  Safe-return_now = record { at = λ e rely w. Grows-refl w }

  db_step :
      (fails : Bool) (op : Store → Result A × Store) (s : Store)
      → Moves op
      → StoreEvolves s (if fails then (err failed, s) else op s).1
  db_step true op s h = StoreEvolves-refl s
  db_step false op s h = h.moves_at s

  pub Safe-db : (op : Store → Result A × Store) → Moves op → Safe (db op)
  unfolding db
  Safe-db op h = record {
    at = λ e rely w.
        let s : Store = e.others w.tick w.store in
        record {
          store =
              StoreEvolves-trans w.store s _ (rely w.tick w.store)
                (db_step (e.fails w.tick) op s h);
          tasks = λ t. t;
        };
  }

pub Safe-time_now : Safe time_now
unfolding time_now
Safe-time_now = record {
  at = λ e rely w. record { store = StoreEvolves-refl w.store; tasks = λ t. t };
}

pub Safe-new_uuid : Safe new_uuid
unfolding new_uuid
Safe-new_uuid = record {
  at = λ e rely w. record { store = StoreEvolves-refl w.store; tasks = λ t. t };
}

pub Safe-validate_outgoing_callback : (url : String) → Safe (validate_outgoing_callback url)
unfolding validate_outgoing_callback
Safe-validate_outgoing_callback url = record {
  at = λ e rely w. record { store = StoreEvolves-refl w.store; tasks = λ t. t };
}

pub Safe-push_callback : (p : Push) → Safe (push_callback p)
unfolding push_callback
Safe-push_callback p = record {
  at = λ e rely w. record { store = StoreEvolves-refl w.store; tasks = λ t. t };
}

pub Safe-send_opening : (url : String) → Safe (send_opening url)
unfolding send_opening
Safe-send_opening url = record {
  at = λ e rely w. record { store = StoreEvolves-refl w.store; tasks = λ t. t };
}

pub Safe-write_reply : (r : Reply) → Safe (write_reply r)
unfolding write_reply
Safe-write_reply r = record {
  at = λ e rely w. record { store = StoreEvolves-refl w.store; tasks = λ t. t };
}

pub Safe-spawn : (t : Task) → Admissible t → Safe (spawn t)
unfolding spawn
Safe-spawn t h = record {
  at = λ e rely w. record {
    store = StoreEvolves-refl w.store;
    tasks = λ ts. All-append Admissible w.spawned (t ∷ []) ts (h, tt);
  };
}

module _ {A B : Type 0} where
  continue-Grows :
      (o : Outcome A) (f : A → Act B) (e : Env)
      → Rely e
      → ((a : A) → Safe (f a))
      → (w : World) → Grows w (continue o f e w).1
  unfolding continue
  continue-Grows (ret a) f e rely h w = (h a).at e rely w
  continue-Grows halt f e rely h w = Grows-refl w

  pub Safe-bind : (m : Act A) (f : A → Act B) → Safe m → ((a : A) → Safe (f a)) → Safe (m >>= f)
  unfolding ◌>>=◌
  Safe-bind m f hm hf = record {
    at = λ e rely w.
        let w' : World = (m e w).1 in
        Grows-trans w w' _ (hm.at e rely w) (continue-Grows (m e w).0 f e rely hf w');
  }

module _ {A : Type 0} where
  pub Safe-if :
      (b : Bool) (m n : Act A)
      → (b ≡ true → Safe m)
      → (b ≡ false → Safe n)
      → Safe (if b then m else n)
  Safe-if true m n hm hn = hm refl
  Safe-if false m n hm hn = hn refl

  -- What follows a check may use that the check passed.
  pub Safe-require :
      (test : Bool) (reply : Reply) (f : Unit {0} → Act A)
      → (test ≡ true → Safe (f tt))
      → Safe (require test reply >>= f)
  unfolding require ◌>>=◌ write_reply return_now
  Safe-require true reply f h = Safe-bind _ _ (Safe-pure tt) (λ u. h refl)
  Safe-require false reply f h = record { at = λ e rely w. (Safe-write_reply reply).at e rely w }

  pub Safe-or_500 : (r : Result A) → Safe (or_500 r)
  unfolding or_500
  Safe-or_500 (ok a) = Safe-pure a
  Safe-or_500 (err x) = Safe-bind _ _ (Safe-write_reply _) (λ u. Safe-return_now)

  pub Safe-or_reply : (o : Option A) (reply : Reply) → Safe (or_reply o reply)
  unfolding or_reply
  Safe-or_reply (some a) reply = Safe-pure a
  Safe-or_reply none reply = Safe-bind _ _ (Safe-write_reply reply) (λ u. Safe-return_now)

  pub Safe-or_return : (r : Result A) → Safe (or_return r)
  unfolding or_return
  Safe-or_return (ok a) = Safe-pure a
  Safe-or_return (err x) = Safe-return_now

module _ {A B C : Type 0} where
  continue_assoc :
      (o : Outcome A) (g : A → Act B) (f : B → Act C) (e : Env) (w : World)
      → continue (continue o g e w).0 f e (continue o g e w).1 ≡ continue o (λ a. g a >>= f) e w
  unfolding continue ◌>>=◌
  continue_assoc (ret a) g f e w = refl
  continue_assoc halt g f e w = refl

  -- A block inside a block may be read as one.
  pub Safe-assoc :
      (m : Act A) (g : A → Act B) (f : B → Act C)
      → Safe (m >>= λ a. g a >>= f)
      → Safe ((m >>= g) >>= f)
  unfolding ◌>>=◌
  Safe-assoc m g f h = record {
    at = λ e rely w.
        subst (λ (r : Outcome C × World). Grows w r.1)
          (sym (continue_assoc (m e w).0 g f e (m e w).1)) (h.at e rely w);
  }

module _ {A B : Type 0} where
  pub Safe-pure-bind : (a : A) (f : A → Act B) → Safe (f a) → Safe (pure a >>= f)
  unfolding ◌>>=◌ pure
  Safe-pure-bind a f h = record { at = λ e rely w. h.at e rely w }

  pub Safe-if-bind :
      (b : Bool) (m n : Act A) (f : A → Act B)
      → Safe (m >>= f)
      → Safe (n >>= f)
      → Safe ((if b then m else n) >>= f)
  Safe-if-bind true m n f hm hn = hm
  Safe-if-bind false m n f hm hn = hn

pub Safe-require_alone : (test : Bool) (reply : Reply) → Safe (require test reply)
unfolding require
Safe-require_alone true reply = Safe-pure tt
Safe-require_alone false reply = Safe-bind _ _ (Safe-write_reply reply) (λ u. Safe-return_now)

pub ruleset safe_rules = (
  Safe-pure, Safe-return_now, Safe-time_now, Safe-new_uuid, Safe-validate_outgoing_callback,
  Safe-push_callback, Safe-send_opening, Safe-write_reply, Safe-spawn, Safe-if, Safe-require,
  Safe-require_alone, Safe-or_500, Safe-or_reply, Safe-or_return, Safe-bind,
)
