-- ===== src/Mgmt/Listing.antt =====
-- The lists hold every row once, in the order of the texts of their times.
use mathlib.Core.List.Perm
use mathlib.Core.List.{Perm}
use dataspace_in_a_box.Base.{
  ℕ, suc, ◌≡◌, refl, inl, inr, true, false, List, [], ◌∷◌, ◌++◌, Bool-cases, arith,
}
use dataspace_in_a_box.Range.{Bytes}
use dataspace_in_a_box.Action.{Env, World, ret, pure, db, continue, or_500, ◌>>=◌}
use dataspace_in_a_box.Store.Rows.{TransferProcess, ConsumerTransfer, Store}
use dataspace_in_a_box.Store.Swap.{Undisturbed}
use dataspace_in_a_box.Mgmt.{
  not_after, place, by_created, list_consumer_transfers, list_transfers, TransferView,
  consumer_view, provider_view, each, handle_list_transfers,
}

not_after-total : (s t : Bytes) → not_after s t ≡ false → not_after t s ≡ true
unfolding not_after
not_after-total [] t h = absurd (ground arith)
not_after-total (c ∷ s) [] h = refl
not_after-total (c ∷ s) (d ∷ t) h = ground (arith, not_after-total s t)

module _ {Row : Type 0} (created : Row → Bytes) where
  -- Each text comes no later than the next one.
  abbrev pub Ordered : List Row → Type 0
  Ordered [] = Unit
  Ordered (r ∷ []) = Unit
  Ordered (r ∷ x ∷ rows) = (not_after (created r) (created x) ≡ true) × Ordered (x ∷ rows)

  place-Ordered : (r : Row) (rows : List Row) → Ordered rows → Ordered (place created r rows)
  unfolding place
  place-Ordered r [] h = tt
  place-Ordered r (x ∷ []) h = elim (Bool-cases (not_after (created r) (created x))) [
    | inl e ↦ rw e (e, tt)
    | inr e ↦ rw e (not_after-total (created r) (created x) e, tt)
  ]
  place-Ordered r (x ∷ y ∷ rows) h = elim (Bool-cases (not_after (created r) (created x))) [
    | inl e ↦ rw e (e, h)
    | inr e ↦ rw e (elim (Bool-cases (not_after (created r) (created y))) [
      | inl f ↦ rw f (not_after-total (created r) (created x) e, (f, h.1))
      | inr f ↦ rw f (h.0, rw f at (place-Ordered r (y ∷ rows) h.1))
    ])
  ]

  by_created-Ordered : (rows : List Row) → Ordered (by_created created rows)
  unfolding by_created
  by_created-Ordered [] = tt
  by_created-Ordered (r ∷ rows) = place-Ordered r _ (by_created-Ordered rows)

  place-perm : (r : Row) (rows : List Row) → Perm (place created r rows) (r ∷ rows)
  unfolding place
  place-perm r [] = Perm.refl _
  place-perm r (x ∷ rows) = elim (Bool-cases (not_after (created r) (created x))) [
    | inl e ↦ rw e (Perm.refl _)
    | inr e ↦ rw e (Perm.trans (Perm.cons x (place-perm r rows)) (Perm.swap r x rows))
  ]

  by_created-perm : (rows : List Row) → Perm (by_created created rows) rows
  unfolding by_created
  by_created-perm [] = Perm.refl []
  by_created-perm (r ∷ rows) =
      Perm.trans (place-perm r (by_created created rows)) (Perm.cons r (by_created-perm rows))

-- A list of transfers: the consumer's in order and then the provider's, each row of the two tables
-- once.
pub record Listed (text : ℕ → Bytes) (s : Store) (listed : List TransferView) : Type 0 where
  pub consumers : List ConsumerTransfer
  pub providers : List TransferProcess
  pub views : listed ≡ each consumer_view consumers ++ each provider_view providers
  pub all_consumers : Perm consumers s.consumer_transfer_processes
  pub all_providers : Perm providers s.transfer_processes
  pub consumers_ordered : Ordered (λ t. text t.created_at) consumers
  pub providers_ordered : Ordered (λ t. text t.created_at) providers

-- With nobody interfering and no call failing, the list of transfers shows every row of the two tables
-- once, the consumer's before the provider's and each table in the order of the texts in which its
-- creation times are kept, and the database stays as it is.
pub handle_list_transfers-Listed :
    (text : ℕ → Bytes) (e : Env) (w : World)
    → Undisturbed e
    → (listed : List TransferView) × ((handle_list_transfers text e w).0 ≡ ret listed)
      × ((handle_list_transfers text e w).1.store ≡ w.store)
      × Listed text w.store listed
unfolding handle_list_transfers list_consumer_transfers list_transfers or_500 db pure ◌>>=◌ continue
handle_list_transfers-Listed text e w u = rw (u.alone w.tick w.store) (
    rw (u.sound w.tick) (
      rw (u.alone (suc w.tick) w.store) (
        rw (u.sound (suc w.tick)) (
          _,
          refl,
          refl,
          record {
            consumers = by_created (λ t. text t.created_at) w.store.consumer_transfer_processes;
            providers = by_created (λ t. text t.created_at) w.store.transfer_processes;
            views = refl;
            all_consumers = by_created-perm _ w.store.consumer_transfer_processes;
            all_providers = by_created-perm _ w.store.transfer_processes;
            consumers_ordered = by_created-Ordered _ w.store.consumer_transfer_processes;
            providers_ordered = by_created-Ordered _ w.store.transfer_processes;
          },
        ))))
