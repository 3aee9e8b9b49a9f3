-- ===== src/Store/Roster.antt =====
-- The memory of the newest roster: `RecordRosterVersion` of internal/store/store.go.
use dataspace_in_a_box.Base.{
  ℕ, suc, ◌≡◌, refl, ap, ◌∙◌, inl, inr, true, false, Option, none, some, List, [], ◌∷◌, ltb,
  Bool-cases, arith, if◌then◌else◌,
}
use dataspace_in_a_box.Store.Swap.{Undisturbed}
use dataspace_in_a_box.Action.{
  failed, Result, ok, err, Env, World, ret, Act, pure, db, continue, ◌>>=◌,
}
use dataspace_in_a_box.Store.Agreements.{
  newer, select_roster_version, upsert_roster_version, judge_version, record_verdict, judge_read,
  record_roster_version,
}

-- The rosters that a connector is started with, one after the other.
unfoldable pub record_all : List ℕ → Act (Unit {0})
record_all [] = pure tt
record_all (v ∷ vs) = do answer ← record_roster_version v; record_all vs

abbrev pub newest : Option ℕ → ℕ → ℕ
newest none v = v
newest (some highest) v = if ltb highest v then v else highest

abbrev pub newest_of : Option ℕ → List ℕ → Option ℕ
newest_of o [] = o
newest_of o (v ∷ vs) = newest_of (some (newest o v)) vs

-- The call fails exactly for a roster that is older than the memory.
abbrev pub roster_report : Option ℕ → ℕ → Result (Unit {0})
roster_report none v = ok tt
roster_report (some highest) v = if ltb v highest then err failed else ok tt

not_older : (v highest : ℕ) → ltb v highest ≡ true → ltb highest v ≡ false
not_older v highest h = ground arith

module _ (e : Env) (u : Undisturbed e) where
  written :
      (v : ℕ) (w : World)
      → ((record_verdict newer v e w).1.store.roster_version ≡ some v)
        × ((record_verdict newer v e w).0 ≡ ret (ok tt))
  unfolding record_verdict upsert_roster_version db
  written v w = rw (u.alone w.tick w.store, u.sound w.tick) (refl, refl)

  verdict-reports :
      (v : ℕ) (w : World) (o : Option ℕ)
      → w.store.roster_version ≡ o
      → ((record_verdict (judge_version o v) v e w).1.store.roster_version ≡ some (newest o v))
        × ((record_verdict (judge_version o v) v e w).0 ≡ ret (roster_report o v))
  unfolding judge_version record_verdict pure
  verdict-reports v w none h = written v w
  verdict-reports v w (some highest) h = elim (Bool-cases (ltb v highest)) [
    | inl t ↦ rw t (rw (not_older v highest t) (h, refl))
    | inr t ↦ elim (Bool-cases (ltb highest v)) [
      | inl t' ↦ rw t (rw t' (written v w))
      | inr t' ↦ rw t (rw t' (h, refl))
    ]
  ]

  -- With nobody interfering and no call failing, the memory is afterwards the newest version seen,
  -- and the call fails exactly for a version that is older than the memory.
  pub record_roster_version-reports :
      (v : ℕ) (w : World)
      → ((record_roster_version v e w).1.store.roster_version
          ≡ some (newest w.store.roster_version v))
        × ((record_roster_version v e w).0 ≡ ret (roster_report w.store.roster_version v))
  unfolding record_roster_version judge_read select_roster_version db ◌>>=◌ continue
  record_roster_version-reports v w =
      rw (u.alone w.tick w.store, u.sound w.tick)
        (verdict-reports v (record w { tick = suc w.tick }) w.store.roster_version refl)

  -- Over any sequence of starts, with nobody interfering and no call failing, the memory becomes
  -- the newest version of all; a refused older roster does not lower it.
  pub record_all-newest :
      (vs : List ℕ) (w : World)
      → (record_all vs e w).1.store.roster_version ≡ newest_of w.store.roster_version vs
  unfolding record_all ◌>>=◌ continue pure
  record_all-newest [] w = refl
  record_all-newest (v ∷ vs) w =
      rw (record_roster_version-reports v w).1
        (record_all-newest vs _ ∙ ap (λ o. newest_of o vs) (record_roster_version-reports v w).0)
