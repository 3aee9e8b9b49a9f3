-- ===== src/Initiate/Laws.antt =====
-- Which address the two initiate hooks dial.
use dataspace_in_a_box.Base.{
  String, ◌≡◌, ◌∙◌, sym, ◌⊎◌, inl, inr, Bool, true, Option, some, ◌==◌, eq_iff, ap, Bool-cases,
  Option-cases, arith,
}
use dataspace_in_a_box.Message.{Reason, Body}
use dataspace_in_a_box.Action.{
  Env, World, ret, halt, pure, return_now, validate_outgoing_callback, write_reply, continue,
  require, or_reply, ◌>>=◌,
}
use dataspace_in_a_box.Initiate.{Connector, is_known, base_url, check_dialed, resolve_base_url}

-- The address that is dialed for a participant, by the roster and the guard.
pub record Dialed (known : String → Bool) (address : String → Option String) (id requested : String)
    (e : Env) (w : World) (url : String) : Type 0 where
  pub listed : known id ≡ true
  pub from_roster : address id ≡ some url
  pub guarded : (url ≡ requested) ⊎ (e.sendable w.tick url ≡ true)

halt_not_ret : {A : Type 0} (P : Type 0) (a : A) → halt ≡ ret a → P
halt_not_ret P a h = absurd (ground arith)

ret_injective : (a b : String) → ret a ≡ ret b → a ≡ b
ret_injective a b h = ground arith

module _ (error_body : Reason → Body) (h : Connector) (known : String → Bool)
    (address : String → Option String) (has_known : h.known_participant ≡ some known)
    (has_address : h.provider_address ≡ some address) (id requested : String) (e : Env) (w : World)
    (url : String) where
  -- Where there is a roster, an initiate hook goes on only with the address that the roster lists for
  -- a participant that it lists, whatever address the request names; and an address that is not the
  -- one that the request named, and so was not checked yet, has passed the address guard.
  pub resolve_base_url-Dialed :
      (resolve_base_url error_body h id requested e w).0 ≡ ret url
      → Dialed known address id requested e w url
  unfolding resolve_base_url is_known base_url check_dialed require or_reply pure return_now
      write_reply validate_outgoing_callback continue ◌>>=◌
  resolve_base_url-Dialed = elim (Bool-cases (known id)) [
    | inr k ↦ rw (has_known, k) (halt_not_ret _ url)
    | inl k ↦ elim (Option-cases (address id)) [
      | inl a ↦ rw (has_known, k, has_address, a) (halt_not_ret _ url)
      | inr (listed, a) ↦ elim (Bool-cases (listed == requested)) [
        | inl same ↦
            rw (has_known, k, has_address, a, same)
              (λ r.
                let u = ret_injective listed url r in
                record {
                  listed = k;
                  from_roster = a ∙ ap some u;
                  guarded = inl (sym u ∙ (eq_iff listed requested).0 same);
                })
        | inr other ↦ elim (Bool-cases (e.sendable w.tick listed)) [
          | inr refused ↦ rw (has_known, k, has_address, a, other, refused) (halt_not_ret _ url)
          | inl allowed ↦
              rw (has_known, k, has_address, a, other, allowed)
                (λ r.
                  let u = ret_injective listed url r in
                  record {
                    listed = k;
                    from_roster = a ∙ ap some u;
                    guarded = inr (rw (sym u) allowed);
                  })
        ]
      ]
    ]
  ]
