-- ===== src/Action.antt =====
-- How the handlers and goroutines of internal/dsp run. Each is a sequence of effects: database
-- calls, pushes, readings of the clock, an answer, a `go`. Between any two of them other
-- goroutines may run, so an environment says, for the effect with a given number, what the others
-- have done to the database just before it, whether the database call fails, and what the clock,
-- the random source, the network and the address guard answer.
use dataspace_in_a_box.Base.{
  ℕ, suc, String, Bool, Option, none, some, List, [], ◌∷◌, ◌++◌, if◌then◌else◌,
}
use dataspace_in_a_box.Message.{Push, Reply, internal_error}
use dataspace_in_a_box.Store.Rows.{Store}
use dataspace_in_a_box.Task.{Task}

-- An error of a database call: `store.ErrNotFound`, `store.ErrStateChanged`, or any other.
pub data DbError : Type 0 where
  not_found state_changed failed : DbError

pub data Result (A : Type 0) : Type 0 where
  ok : A → Result A
  err : DbError → Result A

pub record Env : Type 0 where
  pub others : ℕ → Store → Store
  pub fails : ℕ → Bool
  pub now : ℕ → ℕ
  pub uuid : ℕ → Option String
  -- `validateOutgoingCallback` returns no error
  pub sendable : ℕ → String → Bool
  -- `pushCallback` returns true
  pub delivered : ℕ → Push → Bool
  -- the provider pid that the answer to an opening request carries, or an error
  pub opened : ℕ → String → Option String

pub record World : Type 0 where
  pub tick : ℕ
  pub store : Store
  pub replies : List Reply
  pub sent : List Push
  pub spawned : List Task

-- `halt` is a `return` from the handler.
pub data Outcome (A : Type 0) : Type 0 where
  ret : A → Outcome A
  halt : Outcome A

abbrev pub Act : Type 0 → Type 0
Act A = Env → World → Outcome A × World

module _ {A : Type 0} where
  unfoldable pub pure : A → Act A
  pure a e w = (ret a, w)

  unfoldable pub return_now : Act A
  return_now e w = (halt, w)

  -- One database call: a failing call changes nothing.
  unfoldable pub db : (Store → Result A × Store) → Act (Result A)
  db op e w =
      let s = e.others w.tick w.store in
      let (r, s') = if e.fails w.tick then (err failed, s) else op s in
      (ret r, record w { tick = suc w.tick; store = s' })

unfoldable pub time_now : Act ℕ
time_now e w = (ret (e.now w.tick), record w { tick = suc w.tick })

unfoldable pub new_uuid : Act (Option String)
new_uuid e w = (ret (e.uuid w.tick), record w { tick = suc w.tick })

unfoldable pub validate_outgoing_callback : String → Act Bool
validate_outgoing_callback url e w = (ret (e.sendable w.tick url), record w { tick = suc w.tick })

unfoldable pub push_callback : Push → Act Bool
push_callback p e w =
    (ret (e.delivered w.tick p), record w { tick = suc w.tick; sent = w.sent ++ p ∷ [] })

unfoldable pub send_opening : String → Act (Option String)
send_opening url e w = (ret (e.opened w.tick url), record w { tick = suc w.tick })

unfoldable pub write_reply : Reply → Act (Unit {0})
write_reply r e w = (ret tt, record w { replies = w.replies ++ r ∷ [] })

unfoldable pub spawn : Task → Act (Unit {0})
spawn t e w = (ret tt, record w { spawned = w.spawned ++ t ∷ [] })

module _ {A B : Type 0} where
  unfoldable pub continue : Outcome A → (A → Act B) → Act B
  continue (ret a) f e w = f a e w
  continue halt f e w = (halt, w)

  infixl 5 ◌>>=◌ ◌>>◌
  unfoldable pub ◌>>=◌ : Act A → (A → Act B) → Act B
  unfolding continue
  ◌>>=◌ m f e w = let (r, w') = m e w in continue r f e w'

  abbrev pub ◌>>◌ : Act A → Act B → Act B
  m >> n = m >>= λ _. n

-- `if !test { writeError(...); return }`
unfoldable pub require : Bool → Reply → Act (Unit {0})
require test reply = if test then pure tt else (do write_reply reply; return_now)

module _ {A : Type 0} where
  -- `if err != nil { w.WriteHeader(http.StatusInternalServerError); return }`
  unfoldable pub or_500 : Result A → Act A
  or_500 (ok a) = pure a
  or_500 (err x) = do write_reply internal_error; return_now

  -- `if !ok { writeError(...); return }`
  unfoldable pub or_reply : Option A → Reply → Act A
  or_reply (some a) reply = pure a
  or_reply none reply = do write_reply reply; return_now

  -- A goroutine that logs an error and returns.
  unfoldable pub or_return : Result A → Act A
  or_return (ok a) = pure a
  or_return (err x) = return_now
