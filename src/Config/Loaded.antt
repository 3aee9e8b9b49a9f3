-- ===== src/Config/Loaded.antt =====
-- A configuration that loads has a meaning: the texts of its file are words that the protocol code
-- knows, and the values that it relies on are there.
use mathlib.Core.Path.{subst}
use dataspace_in_a_box.Base.{
  ℕ, ◌≤◌, String, ◌≡◌, ◌≢◌, refl, ◌⊎◌, inl, inr, Bool, true, false, not, ◌&&◌, ◌||◌, Option, none,
  some, List, [], ◌∷◌, ◌==◌, ltb, All, contains, Option-cases, arith, if◌then◌else◌,
}
use dataspace_in_a_box.Transfer.State.{
  TransferState, requested, started, suspended, completed, terminated,
}
use dataspace_in_a_box.Config.{OnOffer, OnAgreement, OnIdle}
use dataspace_in_a_box.Config.Settings.{
  ℤ, pos, negsuc, DatasetSettings, ConsumerPolicySettings, TransferPolicySettings,
  ConsumerTransferPolicySettings, Settings, Surroundings, SettingsError, Check, ◌>>◌, refuse_if,
  check_each, requires_auth, unlisted, offer_words, agreement_words, idle_words, after_words,
  check_state, check_datasets, check_consumer_policy, check_transfer_policy, check_dataset_transfer,
  check_consumer_transfer_policy, check_authentication, check_limits, is_negative, is_positive,
  states_of, validate, loaded, accept, load, with_environment, check_public_url, no_public_url,
  trailing_slash, unauthenticated, no_participant_id, no_data_dir, short_token, bad_idle_timeout,
  bad_max_download_bytes,
}
use dataspace_in_a_box.Range.{codes}
use dataspace_in_a_box.Auth.Roster.{ends_in}

-- The reading of a word: `none` where the protocol code knows no such word.
unfoldable pub read_offer : String → Option OnOffer
read_offer w =
    if w == ""
    then some OnOffer.unset
    else if "accept" == w
    then some OnOffer.accept
    else if "passive" == w
    then some OnOffer.passive
    else if "reject" == w
    then some OnOffer.reject
    else if "counter" == w
    then some OnOffer.counter
    else none

unfoldable pub read_agreement : String → Option OnAgreement
read_agreement w =
    if w == ""
    then some OnAgreement.unset
    else if "verify" == w
    then some OnAgreement.verify
    else if "reject" == w
    then some OnAgreement.reject
    else none

unfoldable pub read_idle : String → Option OnIdle
read_idle w =
    if w == ""
    then some OnIdle.unset
    else if "wait" == w
    then some OnIdle.wait
    else if "abandon" == w
    then some OnIdle.abandon
    else none

unfoldable pub read_state : String → Option TransferState
read_state w =
    if "STARTED" == w
    then some started
    else if "SUSPENDED" == w
    then some suspended
    else if "COMPLETED" == w
    then some completed
    else if "TERMINATED" == w
    then some terminated
    else none

unfoldable pub read_after : String → Option (Option TransferState)
read_after w =
    if w == ""
    then some none
    else if "REQUESTED" == w
    then some (some requested)
    else if "STARTED" == w
    then some (some started)
    else if "SUSPENDED" == w
    then some (some suspended)
    else none

read_offer-listed : (w : String) → unlisted offer_words w ≡ false → read_offer w ≢ none
unfolding read_offer
read_offer-listed w h = ground arith

read_agreement-listed : (w : String) → unlisted agreement_words w ≡ false → read_agreement w ≢ none
unfolding read_agreement
read_agreement-listed w h = ground arith

read_idle-listed : (w : String) → unlisted idle_words w ≡ false → read_idle w ≢ none
unfolding read_idle
read_idle-listed w h = ground arith

read_after-listed : (w : String) → unlisted after_words w ≡ false → read_after w ≢ none
unfolding read_after
read_after-listed w h = ground arith

read_state-listed : (w : String) → check_state w ≡ none → read_state w ≢ none
unfolding read_state check_state
read_state-listed w h = ground arith

-- A chain of checks that finds nothing.
both : (a b : Check) → (a >> b) ≡ none → (a ≡ none) × (b ≡ none)
both none b h = (refl, h)
both (some x) b h = absurd (ground arith)

passed : (b : Bool) (x : SettingsError) → refuse_if b x ≡ none → b ≡ false
passed true x h = absurd (ground arith)
passed false x h = refl

each :
    {A : Type 0} (f : A → Check) (P : A → Type 0)
    → ((a : A) → f a ≡ none → P a)
    → (xs : List A) → check_each f xs ≡ none
    → All P xs
unfolding check_each
each f P each_one [] h = tt
each f P each_one (x ∷ xs) h =
    let (one, rest) = both (f x) (check_each f xs) h in (each_one x one, each f P each_one xs rest)

-- The words of a policy and of a sequence.
pub record KnownConsumerPolicy (p : ConsumerPolicySettings) : Type 0 where
  pub dataset : (p.dataset_id == "") ≡ false
  pub offer : read_offer p.on_offer ≢ none
  pub agreement : read_agreement p.on_agreement ≢ none
  pub idle : read_idle p.on_idle ≢ none

abbrev pub KnownStates : List String → Type 0
KnownStates = All (λ w. read_state w ≢ none)

policy_known : (p : ConsumerPolicySettings) → check_consumer_policy p ≡ none → KnownConsumerPolicy p
unfolding check_consumer_policy
policy_known p h =
    let (a, h1) = both _ _ h in
    let (b, h2) = both _ _ h1 in
    let (c, d) = both _ _ h2 in
    record {
      dataset = passed _ _ a;
      offer = read_offer-listed p.on_offer (passed _ _ b);
      agreement = read_agreement-listed p.on_agreement (passed _ _ c);
      idle = read_idle-listed p.on_idle (passed _ _ d);
    }

transfer_policy_known :
    (p : TransferPolicySettings) → check_transfer_policy p ≡ none → KnownStates p.sequence
unfolding check_transfer_policy
transfer_policy_known p h =
    let (a, b) = both _ _ h in each check_state _ read_state-listed p.sequence b

abbrev pub KnownDataset : DatasetSettings → Type 0
KnownDataset d =
    (is_negative d.simulate_interrupt_after_bytes ≡ false)
    × KnownStates (states_of d.transfer_sequence)

dataset_known : (d : DatasetSettings) → check_dataset_transfer d ≡ none → KnownDataset d
unfolding check_dataset_transfer
dataset_known d h =
    let (a, b) = both _ _ h in
    (passed _ _ a, each check_state _ read_state-listed (states_of d.transfer_sequence) b)

abbrev pub KnownConsumerTransferPolicy : ConsumerTransferPolicySettings → Type 0
KnownConsumerTransferPolicy p = (read_after p.after ≢ none) × KnownStates p.sequence

consumer_transfer_known :
    (p : ConsumerTransferPolicySettings)
    → check_consumer_transfer_policy p ≡ none
    → KnownConsumerTransferPolicy p
unfolding check_consumer_transfer_policy
consumer_transfer_known p h =
    let (a, h1) = both _ _ h in
    let (b, c) = both _ _ h1 in
    (read_after-listed p.after (passed _ _ b), each check_state _ read_state-listed p.sequence c)

-- No dataset id stands twice.
abbrev pub DistinctIds : List DatasetSettings → Type 0
DistinctIds [] = Unit
DistinctIds (d ∷ ds) = All (λ e. (d.id == e.id) ≡ false) ds × DistinctIds ds

abbrev Unseen : List String → List DatasetSettings → Type 0
Unseen seen = All (λ d. contains seen d.id ≡ false)

neither : (a b : Bool) → (a || b) ≡ false → (a ≡ false) × (b ≡ false)
neither a b h = ground arith

Unseen-parts :
    (id : String) (seen : List String) (ds : List DatasetSettings)
    → Unseen (id ∷ seen) ds
    → All (λ e. (id == e.id) ≡ false) ds × Unseen seen ds
Unseen-parts id seen [] h = (tt, tt)
Unseen-parts id seen (d ∷ ds) h =
    let (here, before) = neither (id == d.id) (contains seen d.id) h.0 in
    let (others, rest) = Unseen-parts id seen ds h.1 in ((here, others), (before, rest))

datasets_distinct :
    (around : Surroundings) (seen : List String) (ds : List DatasetSettings)
    → check_datasets around seen ds ≡ none
    → Unseen seen ds × DistinctIds ds
unfolding check_datasets
datasets_distinct around seen [] h = (tt, tt)
datasets_distinct around seen (d ∷ ds) h =
    let (a, h1) = both _ _ h in
    let (b, h2) = both _ _ h1 in
    let (c, rest) = both _ _ h2 in
    let (unseen, distinct) = datasets_distinct around (d.id ∷ seen) ds rest in
    let (others, before) = Unseen-parts d.id seen ds unseen in
    ((passed _ _ c, before), (others, distinct))

-- What holds of a configuration that loads.
pub record Sound (around : Surroundings) (c : Settings) : Type 0 where
  pub slash : ends_in b'/' (codes c.public_url) ≡ false
  pub participant : (c.participant_id == "") ≡ false
  pub datasets : DistinctIds c.datasets
  pub served : All KnownDataset c.datasets
  pub consumer_policies : All KnownConsumerPolicy c.consumer_policies
  pub transfer_policies : All (λ p. KnownStates p.sequence) c.transfer_policies
  pub consumer_transfer_policies : All KnownConsumerTransferPolicy c.consumer_transfer_policies
  pub unauthenticated : requires_auth c ≡ false → c.dev_mode ≡ true
  pub keyed :
      requires_auth c ≡ true
      → ((c.participant_key == "") ≡ false)
        × ((c.roster == "") ≡ false)
        × ((c.roster_signer == "") ≡ false)
  pub stored : (c.data_dir == "") ≡ false
  pub token : ((c.mgmt_token == "") ≡ true) ⊎ (16 ≤ around.byte_length c.mgmt_token)
  pub patient : is_positive c.data_idle_timeout ≡ true
  pub ceiling : (n : ℕ) × (c.max_download_bytes ≡ pos n) × (1 ≤ n)

positive : (z : ℤ) → is_positive z ≡ true → (n : ℕ) × (z ≡ pos n) × (1 ≤ n)
unfolding is_positive
positive (pos n) h = (n, refl, ground arith)
positive (negsuc n) h = absurd (ground arith)

of_not : (b : Bool) → not b ≡ false → b ≡ true
of_not true h = refl
of_not false h = absurd (ground arith)

keys_present :
    (c : Settings)
    → check_authentication c ≡ none
    → requires_auth c ≡ true
    → ((c.participant_key == "") ≡ false)
      × ((c.roster == "") ≡ false)
      × ((c.roster_signer == "") ≡ false)
unfolding check_authentication
keys_present c h on = ground arith

validate-Sound : (around : Surroundings) (c : Settings) → validate around c ≡ none → Sound around c
unfolding validate check_limits
validate-Sound around c h =
    let (a, h1) = both (refuse_if (c.public_url == "") no_public_url) _ h in
    let (b, h2) = both (check_public_url around c) _ h1 in
    let (slash, h3) = both (refuse_if (ends_in b'/' (codes c.public_url)) trailing_slash) _ h2 in
    let (participant, h4) = both _ _ h3 in
    let (datasets, h5) = both _ _ h4 in
    let (consumers, h6) = both _ _ h5 in
    let (transfers, h7) = both _ _ h6 in
    let (served, h8) = both _ _ h7 in
    let (consumer_transfers, h9) = both _ _ h8 in
    let (open_door, h10) =
      both (refuse_if (not (requires_auth c) && not c.dev_mode) unauthenticated) _ h9 in
    let (keys, h11) = both _ _ h10 in
    let (stored, h12) = both _ _ h11 in
    let (token, h13) = both _ _ h12 in
    let (idle, max) = both _ _ h13 in
    record {
      slash = passed _ trailing_slash slash;
      participant = passed _ no_participant_id participant;
      datasets = (datasets_distinct around [] c.datasets datasets).1;
      served = each check_dataset_transfer _ dataset_known c.datasets served;
      consumer_policies = each check_consumer_policy _ policy_known c.consumer_policies consumers;
      transfer_policies =
          each check_transfer_policy _ transfer_policy_known c.transfer_policies transfers;
      consumer_transfer_policies =
          each check_consumer_transfer_policy _ consumer_transfer_known c.consumer_transfer_policies
            consumer_transfers;
      unauthenticated =
          λ off. dev_only (requires_auth c) c.dev_mode (passed _ unauthenticated open_door) off;
      keyed = keys_present c keys;
      stored = passed _ no_data_dir stored;
      token =
          long_enough (c.mgmt_token == "") (around.byte_length c.mgmt_token)
            (passed _ short_token token);
      patient = of_not _ (passed _ bad_idle_timeout idle);
      ceiling = positive c.max_download_bytes (of_not _ (passed _ bad_max_download_bytes max));
    }
  where
    dev_only : (on dev : Bool) → (not on && not dev) ≡ false → on ≡ false → dev ≡ true
    dev_only on dev h off = ground arith

    long_enough :
        (empty : Bool) (n : ℕ) → (not empty && ltb n 16) ≡ false → (empty ≡ true) ⊎ (16 ≤ n)
    long_enough true n h = inl refl
    long_enough false n h = inr (ground arith)

-- A configuration that loads, after the variables of the environment have replaced what they replace,
-- has a public URL without a trailing slash, names the participant and the data directory, lists no dataset id twice, has in its policies and
-- sequences only words that the protocol code knows, no negative interrupt, turns authentication off
-- only in dev_mode and has the two keys and the roster where it is on, has no management token shorter
-- than 16 bytes, and has a positive idle timeout and a positive max_download_bytes.
pub load-Sound :
    (around : Surroundings) (file : Option Settings) (c : Settings)
    → load around file ≡ loaded c
    → Sound around c
unfolding load accept
load-Sound around none c h = absurd (ground arith)
load-Sound around (some file) c h = elim (Option-cases (with_environment around file)) [
  | inl e ↦ absurd (ground arith)
  | inr (c', e) ↦ elim (Option-cases (validate around c')) [
    | inl v ↦
        let same : c' ≡ c = ground arith in subst (Sound around) same (validate-Sound around c' v)
    | inr (x, v) ↦ absurd (ground arith)
  ]
]
