-- ===== src/Mapper/Config/Laws.antt =====
-- What `validateMapperScanConfig` (server/internal/app/mapper.go, lines 409-575) accepts.
use gp_sdr.Prelude.{
  ℕ, ◌≡◌, subst, ◌&&◌, ◌||◌, ◌≤◌, ◌%◌, refl, sym, ap, ◌∙◌, ◌⊎◌, inl, inr, Bool, true, false, not,
  Option-cases, none, [], ◌∷◌, arith, if◌then◌else◌,
}
use gp_sdr.Prelude.Int.{ℤ, pos, ltb_ℤ, ltb_ℤ-false→le, ◌≤ℤ◌, ◌<ℤ◌, negsuc}
use gp_sdr.Prelude.Text.{Text, codes, codes_eq, codes_eq_iff}
use gp_sdr.Mapper.Config.{
  scans, is_outside, not_multiple, MapperConfig, cleaned, or_text, normal_mode, normal_analysis,
  normal_hits, normalize_config, checks, first_error, valid, refused, verdict,
  validate_mapper_scan_config, is_one_of, mode_words, decoder_words, modulation_words,
  analysis_words, rejected_words, source_words, order_words, gain_words, amp_words,
  sensitivity_words, or_number, normal_decoder, default_mapper_concurrent_channels,
}
use gp_sdr.Mapper.Config.Words.{
  fixed_word, mode_words_fixed, analysis_words_fixed, rejected_words_fixed, modulation_words_fixed,
  decoder_words_fixed, source_words_fixed, order_words_fixed, gain_words_fixed, amp_words_fixed,
  sensitivity_words_fixed, or_text_again, or_number_again, normal_hits_again,
  default_channels_positive, AllPass, first_error-AllPass,
}

passed : (b : Bool) → not b ≡ false → b ≡ true
passed b h = ground (arith, h)

-- The location's precision has its default already.
precision_again :
    (b : Bool) (s : Text)
    → let p = (if b then or_text (codes "approximate") s else s) in
      (if b then or_text (codes "approximate") p else p) ≡ p
unfolding codes_eq
precision_again true s = or_text_again (codes "approximate") s refl
precision_again false s = refl

normalize_config_again :
    (c : MapperConfig)
    → AllPass (checks (normalize_config c))
    → normalize_config (normalize_config c) ≡ normalize_config c
unfolding normalize_config codes_eq
normalize_config_again c
      (
        h1,
        (
          h2,
          (
            h3,
            (
              h4,
              (
                _,
                (
                  _,
                  (
                    h5,
                    (
                      h6,
                      (
                        _,
                        (
                          _,
                          (
                            _,
                            (
                              _,
                              (
                                _,
                                (
                                  _,
                                  (
                                    h7,
                                    (
                                      _,
                                      (
                                        _,
                                        (
                                          _,
                                          (h8, (_, (_, (_, (h9, (_, (_, (_, (h10, (h11, _)))))))))),
                                        ),
                                      ),
                                    ),
                                  ),
                                ),
                              ),
                            ),
                          ),
                        ),
                      ),
                    ),
                  ),
                ),
              ),
            ),
          ),
        ),
      ) =
    let n = normalize_config c in
    let e_mode = fixed_word normal_mode mode_words n.mode mode_words_fixed (passed _ h1) in
    let e_analysis =
      ap (λ m. normal_analysis m n.analysis_policy) e_mode
      ∙ fixed_word (normal_analysis n.mode) analysis_words n.analysis_policy
          (analysis_words_fixed n.mode) (passed _ h2) in
    let e_capture = or_text_again (codes "channel") c.capture_policy refl in
    let e_rejected =
      fixed_word (λ s. or_text (codes "delete") (cleaned s)) rejected_words n.rejected_policy
        rejected_words_fixed (passed _ h4) in
    let e_modulation =
      fixed_word (λ s. or_text (codes "auto") (cleaned s)) modulation_words n.preferred_mode
        modulation_words_fixed (passed _ h5) in
    let e_decoder =
      fixed_word normal_decoder decoder_words n.preferred_decoder decoder_words_fixed
        (passed _ h6) in
    let e_listen = or_number_again (pos 60) c.listen_seconds refl in
    let e_hits =
      ap (λ m. normal_hits m n.minimum_hits) e_mode ∙ normal_hits_again n.mode c.minimum_hits in
    let e_source =
      fixed_word (λ s. or_text (codes "discovery") (cleaned s)) source_words n.hit_source
        source_words_fixed (passed _ h7) in
    let e_order =
      fixed_word (λ s. or_text (codes "hits") (cleaned s)) order_words n.order order_words_fixed
        (passed _ h8) in
    let e_channels =
      ap (λ m. or_number (default_mapper_concurrent_channels m) n.concurrent_channels) e_mode
      ∙ or_number_again (default_mapper_concurrent_channels n.mode) c.concurrent_channels
          (default_channels_positive n.mode) in
    let e_gain =
      fixed_word (λ s. or_text (codes "auto") (cleaned s)) gain_words n.gain_mode gain_words_fixed
        (passed _ h9) in
    let e_amp =
      fixed_word (λ s. or_text (codes "auto") (cleaned s)) amp_words n.amp_mode amp_words_fixed
        (passed _ h10) in
    let e_sensitivity =
      fixed_word (λ s. or_text (codes "auto") (cleaned s)) sensitivity_words n.sensitivity
        sensitivity_words_fixed (passed _ h11) in
    let e_margin = or_number_again (pos 600) c.noise_margin refl in
    let e_precision = precision_again c.include_location c.location_precision in
    λ i. record n {
      mode = e_mode i;
      analysis_policy = e_analysis i;
      capture_policy = e_capture i;
      rejected_policy = e_rejected i;
      preferred_mode = e_modulation i;
      preferred_decoder = e_decoder i;
      listen_seconds = e_listen i;
      minimum_hits = e_hits i;
      hit_source = e_source i;
      order = e_order i;
      concurrent_channels = e_channels i;
      gain_mode = e_gain i;
      amp_mode = e_amp i;
      sensitivity = e_sensitivity i;
      noise_margin = e_margin i;
      location_precision = e_precision i;
    }

-- What is accepted is the normal form, and passes every check.
pub valid_cases :
    (c d : MapperConfig)
    → validate_mapper_scan_config c ≡ valid d
    → (normalize_config c ≡ d) × (first_error (checks (normalize_config c)) ≡ none)
unfolding validate_mapper_scan_config
valid_cases c d h = elim (Option-cases (first_error (checks (normalize_config c)))) [
  | inl e ↦ (
    ap (λ v. elim v [ valid x ↦ x | refused x ↦ c ])
        (ap (verdict (normalize_config c)) (sym e) ∙ h),
    e,
  )
  | inr (x, e) ↦ absurd (ground (arith, ap (verdict (normalize_config c)) (sym e) ∙ h))
]

-- An accepted configuration is accepted again, and as it is.
pub validate-valid :
    (c d : MapperConfig)
    → validate_mapper_scan_config c ≡ valid d
    → validate_mapper_scan_config d ≡ valid d
unfolding validate_mapper_scan_config
validate-valid c d h =
    let (e, ok) = valid_cases c d h in
    let again = normalize_config_again c (first_error-AllPass (checks (normalize_config c)) ok) in
    let same = ap normalize_config (sym e) ∙ again ∙ e in
    ap (λ n. verdict n (first_error (checks n))) same
    ∙ ap (λ n. verdict d (first_error (checks n))) (sym e)
    ∙ ap (verdict d) ok

-- A gain that the hardware takes: a multiple of its step, up to its greatest.
abbrev pub IsGain : ℕ → ℕ → ℤ → Type 0
IsGain greatest step gain = (n : ℕ) × (gain ≡ pos n) × (n ≤ greatest) × (n % step ≡ 0)

-- What a job can run on.
pub record IsRunnable (d : MapperConfig) : Type 0 where
  known_mode :
      (d.mode ≡ codes "adaptive") ⊎ (d.mode ≡ codes "discovery") ⊎ (d.mode ≡ codes "decipher")
  span : scans d ≡ true → (pos 0 <ℤ d.start) × (d.start ≤ℤ d.end) × (pos 0 <ℤ d.step)
  channels : (pos 1 ≤ℤ d.concurrent_channels) × (d.concurrent_channels ≤ℤ pos 1024)
  pub lna : IsGain 40 8 d.lna_gain
  pub vga : IsGain 62 2 d.vga_gain
  margin : (pos 300 ≤ℤ d.noise_margin) × (d.noise_margin ≤ℤ pos 3000)

-- One of three words.
word_cases : (a b c s : Text) → is_one_of (a ∷ b ∷ c ∷ []) s ≡ true → (s ≡ a) ⊎ (s ≡ b) ⊎ (s ≡ c)
unfolding is_one_of
word_cases a b c s h = ground (arith, h, codes_eq_iff s a, codes_eq_iff s b, codes_eq_iff s c)

within : (low high n : ℤ) → is_outside low high n ≡ false → (low ≤ℤ n) × (n ≤ℤ high)
within low high n h =
    (ltb_ℤ-false→le n low (ground (arith, h)), ltb_ℤ-false→le high n (ground (arith, h)))

IsGain-cases :
    (greatest step : ℕ) (gain : ℤ)
    → (is_outside (pos 0) (pos greatest) gain || not_multiple step gain) ≡ false
    → IsGain greatest step gain
IsGain-cases greatest step (pos n) h = (n, refl, ground (arith, h), ground (arith, h))
IsGain-cases greatest step (negsuc n) h = absurd (ground (arith, h))

span_cases :
    (b : Bool) (start end step : ℤ)
    → (b && (not (ltb_ℤ (pos 0) start) || not (ltb_ℤ (pos 0) end) || ltb_ℤ end start)) ≡ false
    → (b && not (ltb_ℤ (pos 0) step)) ≡ false
    → b ≡ true
    → (pos 0 <ℤ start) × (start ≤ℤ end) × (pos 0 <ℤ step)
span_cases b start end step h k t = ground (arith, h, k, t)

-- An accepted configuration can run: its mode is known; what scans has a range and a step that are
-- positive; it listens to 1 to 1,024 channels at once; its gains are settings of the HackRF, and its
-- margin is within 3 and 30 dB.
pub validate-IsRunnable :
    (c d : MapperConfig) → validate_mapper_scan_config c ≡ valid d → IsRunnable d
validate-IsRunnable c d h =
    let (e, ok) = valid_cases c d h in
    let (
      h1,
      (
        _,
        (
          _,
          (
            _,
            (
              _,
              (
                _,
                (
                  _,
                  (
                    _,
                    (
                      _,
                      (
                        h2,
                        (
                          h3,
                          (
                            _,
                            (
                              _,
                              (
                                _,
                                (
                                  _,
                                  (
                                    _,
                                    (
                                      _,
                                      (
                                        _,
                                        (
                                          _,
                                          (_, (h4, (_, (_, (_, (h5, (h6, (_, (_, (h7, _)))))))))),
                                        ),
                                      ),
                                    ),
                                  ),
                                ),
                              ),
                            ),
                          ),
                        ),
                      ),
                    ),
                  ),
                ),
              ),
            ),
          ),
        ),
      ),
    ) =
      subst (λ n. AllPass (checks n)) e (first_error-AllPass (checks (normalize_config c)) ok) in
    record {
      known_mode =
          word_cases (codes "adaptive") (codes "discovery") (codes "decipher") d.mode (passed _ h1);
      span = span_cases (scans d) d.start d.end d.step h2 h3;
      channels = within (pos 1) (pos 1024) d.concurrent_channels h4;
      lna = IsGain-cases 40 8 d.lna_gain h5;
      vga = IsGain-cases 62 2 d.vga_gain h6;
      margin = within (pos 300) (pos 3000) d.noise_margin h7;
    }
