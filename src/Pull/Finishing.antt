-- ===== src/Pull/Finishing.antt =====
-- A body that completes the file is copied and published.
use Prim.Native.Nat.{◌-◌, ◌^◌}
use dataspace_in_a_box.Base.{
  ℕ, zero, suc, ◌+◌, ◌≤◌, ◌<◌, ◌≡◌, refl, sym, ap, ◌∙◌, inl, inr, String, Bool, true, false, Option,
  none, some, [], ◌∷◌, ◌++◌, ltb, length, take, length-append, Bool-cases, arith, if◌then◌else◌,
}
use dataspace_in_a_box.Config.{Config}
use dataspace_in_a_box.Action.{Env, World, ret, pure, time_now, continue, ◌>>=◌}
use dataspace_in_a_box.Store.Rows.{ConsumerTransfer}
use dataspace_in_a_box.Range.{Bytes}
use dataspace_in_a_box.Pull.Outcome.{
  Disk, Response, Site, PullOutcome, existing_size, size, bytes_of, succeed,
}
use dataspace_in_a_box.Pull.Response.{proceed, expected_bytes}
use dataspace_in_a_box.Pull.Copy.{copy_limit, copy, within_room, kept, complaint}
use dataspace_in_a_box.Pull.Run.{Pulled, publish, store_body, take_response, note_expected}
use dataspace_in_a_box.Pull.Described.{note_expected-Yields}

-- Nothing on the consumer's side fails, for this endpoint and this counterparty.
pub record Works (site : Site) (endpoint counterparty : String) : Type 0 where
  pub stats : site.stats ≡ true
  pub makes_directory : site.makes_directory ≡ true
  pub builds : site.builds endpoint ≡ true
  pub authorization : String
  pub mints : site.mint counterparty ≡ some authorization
  pub opens : site.opens ≡ true
  pub room : site.room ≡ none
  pub syncs : site.syncs ≡ true
  pub closes : site.closes ≡ true
  pub renames : site.renames ≡ true

-- The file is complete, and the outcome says so.
pub record Complete (content : Bytes) (r : Pulled) : Type 0 where
  pub final : r.1.final ≡ some content
  pub partial : r.1.partial ≡ none
  pub failure : r.0.failure ≡ ""
  pub received : r.0.received ≡ length content
  pub completed : (at : ℕ) × (r.0.completed ≡ some at)

pub empty_of_length : (s : Bytes) → ltb 0 (length s) ≡ false → s ≡ []
empty_of_length [] h = refl
empty_of_length (c ∷ s) h = ground arith

take_all : (n : ℕ) (s : Bytes) → length s ≤ n → take n s ≡ s
take_all zero [] h = refl
take_all (suc n) [] h = refl
take_all zero (c ∷ s) h = absurd (ground arith)
take_all (suc n) (c ∷ s) h = ap (λ r. c ∷ r) (take_all n s (ground arith))

not_less : (n : ℕ) → ltb n n ≡ false
not_less n = ground arith

-- A body that fits is copied whole.
copy_whole :
    (site : Site) (limit : ℕ) (r : Response)
    → site.room ≡ none
    → r.cut ≡ none
    → length r.body ≤ limit
    → copy site limit r ≡ record { bytes = r.body; error = none }
unfolding copy within_room
copy_whole site limit r room cut h =
    rw (room, within_room)
      (rw (take_all limit r.body h) (
        rw (not_less (length r.body)) (elim (Bool-cases (ltb (length r.body) limit)) [
          | inl e ↦ rw e (rw cut refl)
          | inr e ↦ rw e refl
        ])))

no_complaint :
    (site : Site) (max total : ℕ)
    → total ≤ max
    → site.syncs ≡ true
    → site.closes ≡ true
    → site.renames ≡ true
    → complaint site max total total none ≡ none
unfolding complaint
no_complaint site max total h syncs closes renames = ground arith

limit_fits :
    (max existing n : ℕ) → max < 2 ^ 63 - 1 → existing + n ≤ max → n ≤ copy_limit max existing
unfolding copy_limit
limit_fits max existing n h k = ground arith

kept_prefix :
    (d : Disk) (s : Bytes) → kept (ltb 0 (size d.partial)) d ++ s ≡ bytes_of d.partial ++ s
unfolding kept
kept_prefix d s = elim (Bool-cases (ltb 0 (size d.partial))) [
  | inl e ↦ rw e refl
  | inr e ↦ rw e (sym (ap (λ p. p ++ s) (empty_of_length (bytes_of d.partial) e)))
]

module _ (cfg : Config) (site : Site) (t : ConsumerTransfer) (endpoint : String)
    (works : Works site endpoint t.counterparty_id) (content : Bytes)
    (within : length content ≤ cfg.max_download_bytes) (int64 : cfg.max_download_bytes < 2 ^ 63 - 1)
    (d : Disk) where
  publish-Complete :
      (o : PullOutcome) (file : Option Bytes) (e : Env) (w : World)
      → o.received ≡ length content
      → file ≡ some content
      → (r : Pulled) × ((publish cfg site t none o (record d { partial = file }) e w).0 ≡ ret r)
        × Complete content r
  unfolding publish time_now pure continue ◌>>=◌ succeed
  publish-Complete o file e w h p = (
    _,
    refl,
    record { final = p; partial = refl; failure = refl; received = h; completed = (_, refl) },
  )

  pub measured : existing_size site d ≡ size d.partial
  unfolding existing_size
  measured = counts site.stats works.stats
    where
      counts : (b : Bool) → b ≡ true → (if b then size d.partial else 0) ≡ size d.partial
      counts true e = refl
      counts false e = absurd (ground arith)

  fits :
      (s : Bytes) → bytes_of d.partial ++ s ≡ content → size d.partial + length s ≡ length content
  fits s h = sym (length-append (bytes_of d.partial) s) ∙ ap (λ (x : Bytes). length x) h

  store_body-publishes :
      (r : Response) (o : PullOutcome)
      → r.cut ≡ none
      → bytes_of d.partial ++ r.body ≡ content
      → store_body cfg site t (ltb 0 (existing_size site d)) (length content) r o d
        ≡ publish cfg site t none
            (record o { received = length content })
            (record d { partial = some content })
  unfolding store_body
  store_body-publishes r o cut h =
      let total = fits r.body h in
      rw measured (
        rw
          (copy_whole site (copy_limit cfg.max_download_bytes (size d.partial)) r works.room cut (
            limit_fits cfg.max_download_bytes (size d.partial) (length r.body) int64 (omega arith)))
          (rw total (
            rw (kept_prefix d r.body ∙ h) (
              rw
                (no_complaint site cfg.max_download_bytes (length content) within works.syncs
                  works.closes works.renames)
                (rw works.opens refl)))))

  store_body-Complete :
      (r : Response) (o : PullOutcome) (e : Env) (w : World)
      → r.cut ≡ none
      → bytes_of d.partial ++ r.body ≡ content
      → (p : Pulled) × ((store_body cfg site t
            (ltb 0 (existing_size site d))
            (length content)
            r
            o
            d
            e
            w).0
          ≡ ret p)
        × Complete content p
  store_body-Complete r o e w cut h =
      rw (store_body-publishes r o cut h)
        (publish-Complete (record o { received = length content }) (some content) e w refl refl)

  note_expected_ret :
      (expected : ℕ) (e : Env) (w : World) → (note_expected t expected e w).0 ≡ ret tt
  note_expected_ret expected e w =
      let (u, h, x) = (note_expected-Yields cfg t d expected).at e w in h

  pub take_response-Complete :
      (b : Bool) (r : Response) (o : PullOutcome) (stated : Option ℕ) (e : Env) (w : World)
      → b ≡ ltb 0 (existing_size site d)
      → expected_bytes b t stated r ≡ length content
      → r.cut ≡ none
      → bytes_of d.partial ++ r.body ≡ content
      → (p : Pulled) × ((take_response cfg site t b r o d (proceed stated) e w).0 ≡ ret p)
        × Complete content p
  unfolding take_response ◌>>=◌ continue
  take_response-Complete b r o stated e w resuming x cut h = rw x (
      rw (note_expected_ret (length content) e w) (rw resuming (store_body-Complete r o e _ cut h)))
