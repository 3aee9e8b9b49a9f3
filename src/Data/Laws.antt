-- ===== src/Data/Laws.antt =====
-- When the data endpoint serves, and what a resumed pull gets.
use dataspace_in_a_box.Base.{
  ℕ, ◌+◌, ◌≤◌, ◌<◌, ◌≡◌, refl, ◌⊎◌, inl, inr, some, List, [], ◌∷◌, ◌++◌, leb, length, take, drop,
  take-drop, length-drop, Bool-cases, arith,
}
use dataspace_in_a_box.Message.{refusal, transfer_error, range_beyond_end}
use dataspace_in_a_box.Config.{Dataset}
use dataspace_in_a_box.Action.{
  Env, World, ret, halt, pure, return_now, write_reply, continue, ◌>>=◌,
}
use dataspace_in_a_box.Data.{partial, serve_content}

-- A pull that resumes where its first `start` bytes end: either the file goes on, and what is served,
-- appended to these bytes, is the file, its last byte and size being those announced; or it does not,
-- and the answer is 416 and nothing else.
pub serve_content-resumes :
    (ds : Dataset) (start : ℕ) (content : List ℕ) (e : Env) (w : World)
    → ((bytes : List ℕ) × (serve_content ds (some start) content e w
          ≡ (ret (partial start (length content) bytes), w))
        × (take start content ++ bytes ≡ content)
        × (start < length content)
        × (start + length bytes ≡ length content))
      ⊎ ((length content ≤ start)
          × (serve_content ds (some start) content e w ≡ (
            halt,
            record w { replies = w.replies ++ refusal 416 (transfer_error range_beyond_end) ∷ [] },
          )))
unfolding serve_content pure return_now write_reply continue ◌>>=◌
serve_content-resumes ds start content e w = elim (Bool-cases (leb (length content) start)) [
  | inl h ↦ inr (ground arith, rw h refl)
  | inr h ↦ inl (
    drop start content,
    rw h refl,
    take-drop start content,
    ground arith,
    length-drop start content (ground arith),
  )
]
