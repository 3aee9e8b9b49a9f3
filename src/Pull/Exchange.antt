-- ===== src/Pull/Exchange.antt =====
-- Between two connectors of this kind: what the data endpoint of internal/dsp/data_handler.go answers
-- to a pull, and that the pull then completes the file.
use Prim.Native.Nat.{◌-◌, ◌^◌}
use dataspace_in_a_box.Base.{
  ℕ, suc, ◌≤◌, ◌<◌, ◌≡◌, ◌⊎◌, refl, sym, ap, ◌∙◌, inl, inr, String, Bool, true, false, not, none,
  some, [], ◌++◌, ◌==◌, leb, ltb, length, take, drop, take-drop, Bool-cases, arith, if◌then◌else◌,
}
use dataspace_in_a_box.Config.{Dataset, Config}
use dataspace_in_a_box.Message.{DataAddress}
use dataspace_in_a_box.Action.{
  Env, World, Outcome, ret, halt, Act, pure, validate_outgoing_callback, continue, ◌>>=◌,
}
use dataspace_in_a_box.Store.Rows.{ConsumerTransfer}
use dataspace_in_a_box.Data.{DataAnswer, whole, partial, interrupted, serve_content}
use dataspace_in_a_box.Range.{
  Bytes, codes, decimal, content_range, parse_range_start, cut_prefix, range_header, same,
}
use dataspace_in_a_box.Range.Laws.{
  parse_range_start-range_header, parse_content_range-content_range,
}
use dataspace_in_a_box.Pull.Outcome.{
  Disk, Response, broken, Attempt, answered, PullRequest, Site, PullOutcome, existing_size,
  fresh_outcome, size, bytes_of,
}
use dataspace_in_a_box.Pull.Response.{
  proceed, check_resumed, check_partial, check_fresh, starts_at, differs, expected_bytes,
}
use dataspace_in_a_box.Pull.Run.{Pulled, receive, request_data, contact, pull}
use dataspace_in_a_box.Pull.Finishing.{
  Works, Complete, measured, take_response-Complete, empty_of_length,
}

-- The response that `handleData` writes: its status, headers and body. `halt` is the refusal of a
-- range that starts at or after the end; an interrupted body is cut off before its stated length.
unfoldable pub respond : Bytes → Outcome DataAnswer → Response
respond content (ret (whole bytes)) = record {
  status = 200;
  content_range = [];
  content_length = some (length content);
  body = bytes;
  cut = none;
}
respond content (ret (partial start size bytes)) = record {
  status = 206;
  content_range = content_range start size;
  content_length = some (size - start);
  body = bytes;
  cut = none;
}
respond content (ret (interrupted bytes)) = record {
  status = 200;
  content_range = [];
  content_length = some (length content);
  body = bytes;
  cut = if ltb (length bytes) (length content) then some broken else none;
}
respond content halt = record {
  status = 416;
  content_range = codes "bytes */" ++ decimal (length content);
  content_length = none;
  body = [];
  cut = none;
}

-- What the provider of this kind answers to a Range header that is read as `range`.
serve_whole :
    (ds : Dataset) (content : Bytes) (e : Env) (w : World)
    → ds.simulate_interrupt_after_bytes ≡ 0
    → (serve_content ds none content e w).0 ≡ ret (whole content)
unfolding serve_content pure
serve_whole ds content e w h = rw h refl

serve_rest :
    (ds : Dataset) (start : ℕ) (content : Bytes) (e : Env) (w : World)
    → start < length content
    → (serve_content ds (some start) content e w).0
      ≡ ret (partial start (length content) (drop start content))
unfolding serve_content pure
serve_rest ds start content e w h = rw (past start (length content) h) refl
  where
    past : (n m : ℕ) → n < m → leb m n ≡ false
    past n m h = ground arith

same_self : (n : ℕ) → same n n ≡ true
same_self n = ground arith

-- The transfer's row knows no length, or the right one.
differs-none :
    (n recorded : ℕ) → (recorded ≡ 0) ⊎ (recorded ≡ n) → differs (some n) recorded ≡ false
unfolding differs
differs-none n recorded h = ground arith

check_resumed-proceeds :
    (site : Site) (t : ConsumerTransfer) (start : ℕ) (content bytes : Bytes) (o : PullOutcome)
    (d : Disk)
    → start < 2 ^ 63
    → length content < 2 ^ 63
    → (t.expected_bytes ≡ 0) ⊎ (t.expected_bytes ≡ length content)
    → check_resumed site t start (respond content (ret (partial start (length content) bytes))) o d
      ≡ proceed (some (length content))
unfolding check_resumed check_partial respond starts_at
check_resumed-proceeds site t start content bytes o d h k x =
    rw (parse_content_range-content_range start (length content) h k)
      (rw (same_self start) (rw (differs-none (length content) t.expected_bytes x) refl))

skip :
    (content : Bytes) (e : Env) (w : World) (b : Bool) (m n : Act Pulled)
    → b ≡ false
    → (p : Pulled) × ((n e w).0 ≡ ret p) × Complete content p
    → (p : Pulled) × (((if b then m else n) e w).0 ≡ ret p) × Complete content p
skip content e w true m n h r = absurd (ground arith)
skip content e w false m n h r = r

-- One pull from a provider of this kind that serves `content` under the dataset `ds`.
module _ (cfg : Config) (site : Site) (t : ConsumerTransfer) (endpoint : String)
    (works : Works site endpoint t.counterparty_id) (content : Bytes)
    (within : length content ≤ cfg.max_download_bytes) (int64 : cfg.max_download_bytes < 2 ^ 63 - 1)
    (ds : Dataset) (plain : ds.simulate_interrupt_after_bytes ≡ 0) (d : Disk)
    (prefix : bytes_of d.partial ≡ take (size d.partial) content)
    (shorter : size d.partial < length content)
    (known : (t.expected_bytes ≡ 0) ⊎ (t.expected_bytes ≡ length content)) (pe : Env)
    (pw : World) where
  stat : existing_size site d ≡ size d.partial
  stat = measured cfg site t endpoint works content within int64 d

  resumes : (b : Bool) → ltb 0 (size d.partial) ≡ b → b ≡ ltb 0 (existing_size site d)
  resumes b e = sym (ap (λ n. ltb 0 n) stat ∙ e)

  abbrev reply_to : Bytes → Attempt
  reply_to range =
      answered (respond content (serve_content ds (parse_range_start range) content pe pw).0)

  Ends : Bool → Bytes → PullOutcome → Env → World → Type 0
  Ends b range o e w =
      (p : Pulled) × ((receive cfg site t b o d (reply_to range) e w).0 ≡ ret p)
      × Complete content p

  receive_resuming :
      (o : PullOutcome) (e : Env) (w : World)
      → ltb 0 (size d.partial) ≡ true
      → Ends true (range_header (size d.partial)) o e w
  unfolding Ends receive
  receive_resuming o e w resuming =
      rw (parse_range_start-range_header (size d.partial) (omega arith)) (
        rw (serve_rest ds (size d.partial) content pe pw shorter, stat)
          (rw
            (check_resumed-proceeds site t (size d.partial) content (drop (size d.partial) content)
              o d (omega arith) (omega arith) known)
            (take_response-Complete cfg site t endpoint works content within int64 d true
              (respond content
                (ret (partial (size d.partial) (length content) (drop (size d.partial) content))))
              o (some (length content)) e w (resumes true resuming) (unfold expected_bytes in refl)
              (unfold respond in refl)
              (unfold respond in
                (ap (λ s. s ++ drop (size d.partial) content) prefix
                  ∙ take-drop (size d.partial) content)))))

  receive_fresh :
      (o : PullOutcome) (e : Env) (w : World) → ltb 0 (size d.partial) ≡ false → Ends false [] o e w
  unfolding Ends receive parse_range_start cut_prefix check_fresh respond
  receive_fresh o e w fresh = rw (serve_whole ds content pe pw plain) (
      take_response-Complete cfg site t endpoint works content within int64 d false
        (respond content (ret (whole content))) o none e w (resumes false fresh)
        (unfold expected_bytes respond in refl) (unfold respond in refl)
        (unfold respond in ap (λ s. s ++ content) (empty_of_length (bytes_of d.partial) fresh)))

  -- With the minter's and the counterparty's answers in place.
  request_data-Complete :
      (o : PullOutcome) (e : Env) (w : World)
      → ((q : PullRequest) → site.fetch q ≡ reply_to q.range)
      → (p : Pulled) × ((request_data cfg site t endpoint o d (some works.authorization) e w).0
          ≡ ret p)
        × Complete content p
  unfolding request_data Ends
  request_data-Complete o e w fetches = elim (Bool-cases (ltb 0 (size d.partial))) [
    | inl resuming ↦ rw (stat, resuming) (rw (fetches _) (receive_resuming o e w resuming))
    | inr fresh ↦ rw (stat, fresh) (rw (fetches _) (receive_fresh o e w fresh))
  ]

  contact-Complete :
      (o : PullOutcome) (e : Env) (w : World)
      → ((q : PullRequest) → site.fetch q ≡ reply_to q.range)
      → e.sendable w.tick endpoint ≡ true
      → (p : Pulled) × ((contact cfg site t endpoint o d e w).0 ≡ ret p) × Complete content p
  unfolding contact ◌>>=◌ continue validate_outgoing_callback
  contact-Complete o e w fetches allowed =
      skip content e (record w { tick = suc w.tick }) _ _ _ (ap not allowed)
        (skip content e (record w { tick = suc w.tick }) _ _ _ (ap not works.makes_directory)
          (skip content e (record w { tick = suc w.tick }) _ _ _ (ap not works.builds)
            (rw works.mints (request_data-Complete o e (record w { tick = suc w.tick }) fetches))))

-- Between two connectors of this kind one pull completes the file, fresh or resumed. Where the partial
-- download is a proper prefix of the served content, the row knows no length or the right one, the
-- content fits max_download_bytes, that limit is below the largest int64, no interrupt is simulated
-- and nothing fails on the consumer's side, the published file is the content, no partial download is
-- left, and the outcome has its byte count, a completion and no reason.
pub pull-Complete :
    (cfg : Config) (site : Site) (t : ConsumerTransfer) (address : DataAddress)
    → Works site address.endpoint t.counterparty_id
    → (content : Bytes) → length content ≤ cfg.max_download_bytes
    → cfg.max_download_bytes < 2 ^ 63 - 1
    → (ds : Dataset) → ds.simulate_interrupt_after_bytes ≡ 0
    → (d : Disk) → bytes_of d.partial ≡ take (size d.partial) content
    → size d.partial < length content
    → (t.expected_bytes ≡ 0) ⊎ (t.expected_bytes ≡ length content)
    → (pe : Env) (pw : World)
    → ((q : PullRequest)
        → site.fetch q
          ≡ answered
              (respond content (serve_content ds (parse_range_start q.range) content pe pw).0))
    → (e : Env) (w : World) → (address.endpoint == "") ≡ false
    → e.sendable w.tick address.endpoint ≡ true
    → (r : Pulled) × ((pull cfg site t (some address) d e w).0 ≡ ret r) × Complete content r
unfolding pull
pull-Complete cfg site t address works content within int64 ds plain d prefix shorter known pe pw
      fetches e w named allowed =
    skip content e w _ _ _ named (
      contact-Complete cfg site t address.endpoint works content within int64 ds plain d prefix
        shorter known pe pw (fresh_outcome site d) e w fetches allowed)
