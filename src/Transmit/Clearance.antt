-- ===== src/Transmit/Clearance.antt =====
-- What a cleared transmit request guarantees (server/internal/app/transmit.go, `Transmit`).
use gp_sdr.Prelude.{
  ℕ, zero, suc, ◌≤◌, ◌<◌, ◌≡◌, ◌≢◌, refl, subst, ◌⊎◌, inl, inr, Bool, true, false, not, ◌&&◌, ◌||◌,
  Option, none, some, List, [], ◌∷◌, ◌++◌, ap, arith, Bool-cases, ltb,
}
use gp_sdr.Prelude.Int.{ℤ, pos, negsuc, ◌≤ℤ◌, ltb_ℤ}
use gp_sdr.Prelude.Text.{Text, codes, codes_eq, codes_eq_iff, trim_space}
use gp_sdr.Transmit.Request.{
  Float, nan, infinity, finite, TransmitRequest, Device, Runtime, TransmitError, Checked, accepted,
  rejected, ◌>>=◌, ◌>>◌, refuse, PlanItem, plan_uses, plans_device, no_device, no_transmitter,
  hackrf_gain, below_range, above_range, unhealthy, in_use, mapper_owned, no_audio, normalize_mode,
  known_mode, bad_frequency_value, is_no_number, default_duration, over_limit, check_fields,
  find_device, is_busy, mapper_owns, is_hackrf, transmit_capable, under, over, is_unfit,
  check_device, Cleared, clear_request,
}

-- A mode that the modulator knows.
abbrev pub IsMode : Text → Type 0
IsMode mode = (mode ≡ codes "am") ⊎ (mode ≡ codes "nfm") ⊎ (mode ≡ codes "wfm")

-- A whole number in a range.
abbrev pub IsWithin : ℕ → ℕ → Float → Type 0
IsWithin lo hi x = (n : ℕ) × (x ≡ finite (pos n)) × (lo ≤ n) × (n ≤ hi)

-- The request's own fields are in range, and RF output was armed.
pub record IsSound (r : TransmitRequest) : Type 0 where
  pub mode : IsMode r.mode
  pub frequency : IsWithin 1000000 6000000000 r.frequency
  pub duration : IsWithin 1 120000000 r.duration
  pub gain : (pos 0 ≤ℤ r.tx_gain_db) × (r.tx_gain_db ≤ℤ pos 89)
  pub arming : r.dry_run ≡ false → r.armed ≡ true

IsMode-of : (mode : Text) → known_mode mode ≡ true → IsMode mode
IsMode-of mode h = ground (
  arith,
  codes_eq_iff mode (codes "am"),
  codes_eq_iff mode (codes "nfm"),
  codes_eq_iff mode (codes "wfm"),
)

frequency_of : (x : Float) → bad_frequency_value x ≡ false → IsWithin 1000000 6000000000 x
unfolding bad_frequency_value
frequency_of (finite (pos n)) h = (n, refl, ground arith, ground arith)
frequency_of (finite (negsuc n)) h = absurd (ground arith)
frequency_of nan h = cc
frequency_of (infinity b) h = cc

duration_of :
    (x : Float)
    → is_no_number x ≡ false
    → over_limit (default_duration x) ≡ false
    → IsWithin 1 120000000 (default_duration x)
unfolding over_limit default_duration
duration_of (finite (pos zero)) h k = (10000000, refl, omega arith, omega arith)
duration_of (finite (pos (suc n))) h k = (suc n, ground arith, omega arith, ground arith)
duration_of (finite (negsuc n)) h k = (10000000, ground arith, omega arith, omega arith)
duration_of nan h k = cc
duration_of (infinity b) h k = cc

accepted-injective {ℓ} : {A : Type ℓ} {a b : A} → accepted a ≡ accepted b → a ≡ b
accepted-injective e = cc

refuse-accepted :
    {A : Type 0} (b : Bool) (e : TransmitError) (m : Checked A) {a : A}
    → (refuse b e >> m) ≡ accepted a
    → (b ≡ false) × (m ≡ accepted a)
refuse-accepted true e m h = absurd (ground arith)
refuse-accepted false e m h = (refl, h)

not-false : {b : Bool} → not b ≡ false → b ≡ true
not-false {b} h = ground arith

gain_of :
    (gain : ℤ)
    → (ltb_ℤ gain (pos 0) || ltb_ℤ (pos 89) gain) ≡ false
    → (pos 0 ≤ℤ gain) × (gain ≤ℤ pos 89)
gain_of gain h = ground arith

arming_of : (dry armed : Bool) → (not dry && not armed) ≡ false → dry ≡ false → armed ≡ true
arming_of dry armed h d = ground arith

abbrev normalized : TransmitRequest → TransmitRequest
normalized given = record given {
  mode = normalize_mode given.mode;
  duration = default_duration given.duration;
}

check_fields-IsSound : (given r : TransmitRequest) → check_fields given ≡ accepted r → IsSound r
unfolding check_fields
check_fields-IsSound given r h =
    let (mode, h1) = refuse-accepted _ _ _ h in
    let (hz, h2) = refuse-accepted _ _ _ h1 in
    let (number, h3) = refuse-accepted _ _ _ h2 in
    let (short, h4) = refuse-accepted _ _ _ h3 in
    let (gain, h5) = refuse-accepted _ _ _ h4 in
    let (arming, h6) = refuse-accepted _ _ _ h5 in
    let sound : IsSound (normalized given) = record {
      mode = IsMode-of _ (not-false mode);
      frequency = frequency_of _ hz;
      duration = duration_of given.duration number short;
      gain = gain_of given.tx_gain_db gain;
      arming = arming_of given.dry_run given.armed arming;
    } in
    subst IsSound (accepted-injective h6) sound

-- The device is in use by no assignment of the running plan.
abbrev pub AllFree : Text → List PlanItem → Type 0
AllFree id [] = Unit
AllFree id (item ∷ items) =
    (item.is_assigned ≡ true → item.plan_device ≢ some id) × AllFree id items

abbrev pub AllOthers : Text → List Text → Type 0
AllOthers id [] = Unit
AllOthers id (device ∷ devices) = (device ≢ id) × AllOthers id devices

free_item :
    (id : Text) (planned : Option Text) (assigned : Bool)
    → (plans_device id planned && assigned) ≡ false
    → assigned ≡ true
    → planned ≢ some id
free_item id none assigned h a = λ e. cc
free_item id (some d) assigned h a = λ e. ground (arith, codes_eq_iff d id)

plan_uses-AllFree : (id : Text) (plan : List PlanItem) → plan_uses id plan ≡ false → AllFree id plan
unfolding plan_uses
plan_uses-AllFree id [] h = tt
plan_uses-AllFree id (item ∷ items) h = (
  free_item id item.plan_device item.is_assigned (ground arith),
  plan_uses-AllFree id items (ground arith),
)

mapper_owns-AllOthers :
    (id : Text) (devices : List Text) → mapper_owns id devices ≡ false → AllOthers id devices
unfolding mapper_owns
mapper_owns-AllOthers id [] h = tt
mapper_owns-AllOthers id (d ∷ ds) h =
    (λ e. ground (arith, codes_eq_iff d id), mapper_owns-AllOthers id ds (ground arith))

-- No device of the list has the ID.
abbrev pub AllUnlike : Text → List Device → Type 0
AllUnlike id [] = Unit
AllUnlike id (d ∷ ds) = (d.device_id ≢ id) × AllUnlike id ds

-- The first device of the list that has the ID.
pub record IsFirst (id : Text) (d : Device) (devices : List Device) : Type 0 where
  pub before : List Device
  pub after : List Device
  pub whole : devices ≡ before ++ d ∷ after
  pub unlike : AllUnlike id before
  pub same : d.device_id ≡ id

-- The first device with the ID, or `no_device` if none has it.
abbrev pub IsFound : Text → List Device → Device → Type 0
IsFound id devices d = (AllUnlike id devices × (d ≡ no_device)) ⊎ IsFirst id d devices

find_device-IsFound :
    (id : Text) (devices : List Device) → IsFound id devices (find_device id devices)
unfolding find_device
find_device-IsFound id [] = inl (tt, refl)
find_device-IsFound id (d ∷ ds) = elim (Bool-cases (codes_eq d.device_id id)) [
  | inl same ↦ rw same (
      inr (record {
        before = [];
        after = ds;
        whole = refl;
        unlike = tt;
        same = (codes_eq_iff d.device_id id).0 same;
      }))
  | inr other ↦ rw other (elim (find_device-IsFound id ds) [
    | inl (all, e) ↦ inl ((λ e. ground (arith, codes_eq_iff d.device_id id), all), e)
    | inr first ↦ inr (record {
      before = d ∷ first.before;
      after = first.after;
      whole = ap (◌∷◌ d) first.whole;
      unlike = (λ e. ground (arith, codes_eq_iff d.device_id id), first.unlike);
      same = first.same;
    })
  ])
]

-- What is required of the device, and more of it where RF is to be sent.
pub record IsReady (runtime : Runtime) (r : TransmitRequest) (d : Device) : Type 0 where
  pub hackrf_limit : is_hackrf d.kind ≡ true → r.tx_gain_db ≤ℤ pos 47
  pub in_range :
      (hz : ℕ)
      → r.frequency ≡ finite (pos hz)
      → (0 < d.frequency_minimum → d.frequency_minimum ≤ hz)
        × (0 < d.frequency_maximum → hz ≤ d.frequency_maximum)
  pub unused :
      runtime.is_running ≡ true → runtime.has_active ≡ true → AllFree d.device_id runtime.plan
  pub material : (r.has_audio ≡ true) ⊎ (r.has_fixture ≡ true)
  pub at_hand :
      r.dry_run ≡ false
      → (d.device_id ≢ [])
        × (d.connected ≡ true)
        × (d.available ≡ true)
        × (transmit_capable d ≡ true)
        × (d.has_warning ≡ false)
        × AllOthers d.device_id runtime.mapper_devices

refuse_last : (b : Bool) (e : TransmitError) → refuse b e ≡ accepted tt → b ≡ false
refuse_last true e h = absurd (ground arith)
refuse_last false e h = refl

range_of :
    (x : Float) (lo hi hz : ℕ)
    → (ltb 0 lo && under x lo) ≡ false
    → (ltb 0 hi && over x hi) ≡ false
    → x ≡ finite (pos hz)
    → (0 < lo → lo ≤ hz) × (0 < hi → hz ≤ hi)
range_of x lo hi hz h k e =
    let h' : (ltb 0 lo && under (finite (pos hz)) lo) ≡ false = rw e at h in
    let k' : (ltb 0 hi && over (finite (pos hz)) hi) ≡ false = rw e at k in
    (λ p. ground arith, λ p. ground arith)

hackrf_limit_of :
    (is_one : Bool) (gain : ℤ)
    → (is_one && ltb_ℤ (pos 47) gain) ≡ false
    → is_one ≡ true
    → gain ≤ℤ pos 47
hackrf_limit_of is_one gain h k = ground arith

unused_of :
    (runtime : Runtime) (id : Text)
    → is_busy runtime id ≡ false
    → runtime.is_running ≡ true
    → runtime.has_active ≡ true
    → AllFree id runtime.plan
unfolding is_busy
unused_of runtime id h running active = plan_uses-AllFree id runtime.plan (ground arith)

material_of :
    (audio fixture : Bool) → (not audio && not fixture) ≡ false → (audio ≡ true) ⊎ (fixture ≡ true)
material_of audio fixture h = ground arith

fit_of :
    (d : Device)
    → is_unfit d ≡ false
    → (d.device_id ≢ []) × (d.connected ≡ true) × (d.available ≡ true) × (transmit_capable d ≡ true)
unfolding is_unfit
fit_of d h =
    (λ e. ground (arith, codes_eq_iff d.device_id []), ground arith, ground arith, ground arith)

dropped : {dry b : Bool} → (not dry && b) ≡ false → dry ≡ false → b ≡ false
dropped {dry} {b} h k = ground arith

dropped_right : {dry b : Bool} → (b && not dry) ≡ false → dry ≡ false → b ≡ false
dropped_right {dry} {b} h k = ground arith

check_device-IsReady :
    (runtime : Runtime) (r : TransmitRequest) (d : Device)
    → check_device runtime r d ≡ accepted tt
    → IsReady runtime r d
unfolding check_device
check_device-IsReady runtime r d h =
    let (fit, h1) = refuse-accepted _ no_transmitter _ h in
    let (gain, h2) = refuse-accepted _ hackrf_gain _ h1 in
    let (low, h3) = refuse-accepted _ below_range _ h2 in
    let (high, h4) = refuse-accepted _ above_range _ h3 in
    let (healthy, h5) = refuse-accepted _ unhealthy _ h4 in
    let (free, h6) = refuse-accepted _ in_use _ h5 in
    let (others, h7) = refuse-accepted _ mapper_owned _ h6 in
    let audio = refuse_last _ no_audio h7 in
    record {
      hackrf_limit = hackrf_limit_of (is_hackrf d.kind) r.tx_gain_db gain;
      in_range = λ hz e. range_of r.frequency d.frequency_minimum d.frequency_maximum hz low high e;
      unused = unused_of runtime d.device_id free;
      material = material_of r.has_audio r.has_fixture audio;
      at_hand = λ dry.
          let (named, linked, usable, capable) = fit_of d (dropped fit dry) in
          (
            named,
            linked,
            usable,
            capable,
            dropped_right healthy dry,
            mapper_owns-AllOthers d.device_id runtime.mapper_devices (dropped_right others dry),
          );
    }

bind-accepted :
    {A B : Type 0} (m : Checked A) (k : A → Checked B) {b : B}
    → (m >>= k) ≡ accepted b
    → (a : A) × (m ≡ accepted a) × (k a ≡ accepted b)
bind-accepted (accepted a) k h = (a, refl, h)
bind-accepted (rejected e) k h = absurd (ground arith)

-- The device of a cleared request: the first of the runtime with the ID that the request names, or
-- none if the runtime has no such device.
abbrev pub IsNamed : Runtime → Cleared → Type 0
IsNamed runtime c = IsFound (trim_space c.request.request_device) runtime.devices c.device

-- A request that `Transmit` lets through has a known mode, a frequency from 1 MHz to 6 GHz, a
-- duration of at most a minute and a gain in range, and was armed unless it is a dry run. Its device
-- is the first of the runtime with the ID that it names, if there is one, and is the empty device
-- if there is none. The device's limits hold, no assignment
-- of the running plan uses it, and audio or a fixture is given. Where RF is to be sent, the device
-- has an ID, is connected, available, able to transmit and without a warning, and no Mapper job
-- holds it.
pub clear_request-IsSound :
    (runtime : Runtime) (given : TransmitRequest) (c : Cleared)
    → clear_request runtime given ≡ accepted c
    → IsSound c.request × IsReady runtime c.request c.device × IsNamed runtime c
unfolding clear_request
clear_request-IsSound runtime given c h =
    let (r, checked, h1) = bind-accepted (check_fields given) _ h in
    let d = find_device (trim_space r.request_device) runtime.devices in
    let (u, ready, h2) = bind-accepted (check_device runtime r d) _ h1 in
    let cleared : Cleared = record { request = r; device = d } in
    let here : IsSound r × IsReady runtime r d × IsNamed runtime cleared = (
      check_fields-IsSound given r checked,
      check_device-IsReady runtime r d ready,
      find_device-IsFound (trim_space r.request_device) runtime.devices,
    ) in
    subst
      (λ (x : Cleared). IsSound x.request × IsReady runtime x.request x.device × IsNamed runtime x)
      (accepted-injective h2) here
