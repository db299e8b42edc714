-- ===== src/Settings/File/Ends.antt =====
-- The loop of `Load` ends.
use game_login.Base.{
  ℕ, zero, suc, ◌+◌, ◌≤◌, ◌<◌, ◌≡◌, ◌≢◌, refl, ap, subst, true, false, List, [], ◌∷◌, arith, leb,
  length, Bool-cases, inl, inr,
}
use game_login.Settings.Tokens.{Token, Scanned, eof, is_eof, max_token_len, get_token}
use game_login.Settings.Tokens.Progress.{RunsFit, get_token-Ends}
use game_login.Settings.Tokens.Whole.{IsWhole, get_token-Goes}
use game_login.Settings.File.{
  State, StringMap, done, unfinished, stream_failed, run, scan, step, load_map,
}

pub ne-eof : (t : Token) → is_eof t ≡ false → t ≢ eof
ne-eof t h e = cc (ap is_eof e)

scan-ends :
    (fuel : ℕ) (cs : List ℕ) (st : State)
    → length cs < fuel
    → IsWhole cs
    → (scan fuel cs st ≢ unfinished)
      × (scan fuel cs st ≢ stream_failed)
      × (RunsFit cs → (map : StringMap) × (scan fuel cs st ≡ done map))
unfolding scan
scan-ends zero cs st h w = absurd (omega arith)
scan-ends (suc fuel) cs st h w =
    let s = get_token true cs in
    let r = get_token-Ends true cs in
    let (whole, sound) = get_token-Goes true cs w in
    elim (Bool-cases (is_eof s.token)) [
      | inl e ↦ rw (e, scan) (λ x. cc, λ x. cc, λ f. (st.map, refl))
      | inr e ↦
          rw (e, scan)
            (let (ends, good, fit) =
                scan-ends fuel s.rest (step st.phase s.token s.value st)
                  (omega (arith, r.on (ne-eof _ e))) whole in
              elim (Bool-cases (leb (length s.value) max_token_len)) [
                | inl l ↦ rw (l, scan) (rw (sound, scan) (ends, good, λ f. fit (r.fits f)))
                | inr l ↦ rw (l, scan) (λ x. cc, λ x. cc, λ f. absurd (ground (arith, r.few f)))
              ])
    ]

-- The loop of `Load` over a file of at least one byte, the last of which is no `-`, ends, after no more
-- tokens than the file has bytes and one more, and its stream does not fail before its end; and if
-- nowhere in the file more than 70 bytes stand together that a word can have, no word goes past the end
-- of `value`, and `Load` has the map.
pub load_map-ends :
    (key : List ℕ) (map : StringMap) (cs : List ℕ)
    → 0 < length cs
    → IsWhole cs
    → (load_map key map cs ≢ unfinished)
      × (load_map key map cs ≢ stream_failed)
      × (RunsFit cs → (loaded : StringMap) × (load_map key map cs ≡ done loaded))
unfolding load_map run
load_map-ends key map [] some_byte w = absurd (omega arith)
load_map-ends key map (c ∷ cs) some_byte w = scan-ends _ (c ∷ cs) _ (omega arith) w

-- More fuel than the file has bytes makes no difference.
pub scan_fuel :
    (n m : ℕ) (cs : List ℕ) (st : State)
    → length cs < n
    → length cs < m
    → scan n cs st ≡ scan m cs st
unfolding scan
scan_fuel zero m cs st h k = absurd (omega arith)
scan_fuel (suc n) zero cs st h k = absurd (omega arith)
scan_fuel (suc n) (suc m) cs st h k =
    let s = get_token true cs in
    let r = get_token-Ends true cs in
    elim (Bool-cases (is_eof s.token)) [
      | inl e ↦ rw (e, scan) refl
      | inr e ↦
          rw (e, scan)
            (elim (Bool-cases (leb (length s.value) max_token_len)) [
              | inl l ↦
                  let shorter = r.on (ne-eof _ e) in
                  rw (l, scan)
                    (elim (Bool-cases s.failed) [
                      | inl f ↦ rw (f, scan) refl
                      | inr f ↦
                          rw (f, scan)
                            (scan_fuel n m s.rest (step st.phase s.token s.value st)
                              (omega (arith, shorter)) (omega (arith, shorter)))
                    ])
              | inr l ↦ rw (l, scan) refl
            ])
    ]

-- What a round comes to if `GetToken` comes to `s`.
abbrev Round : List ℕ → State → Scanned → Type 0
Round cs st s =
    is_eof s.token ≡ false
    → length s.value ≤ max_token_len
    → s.failed ≡ false
    → length s.rest < length cs
    → run cs st ≡ run s.rest (step st.phase s.token s.value st)

run-Round : (cs : List ℕ) (st : State) → Round cs st (get_token true cs)
unfolding run scan
run-Round cs st token few sound shorter =
    let s = get_token true cs in
    let more : length cs + 1 ≡ suc (length cs) = omega arith in
    let fits : leb (length s.value) max_token_len ≡ true = ground arith in
    rw (more, scan)
      (rw (token, scan)
        (rw (fits, scan)
          (rw (sound, scan)
            (scan_fuel (length cs) (length s.rest + 1) s.rest (step st.phase s.token s.value st)
              shorter (omega arith)))))

pub run-get_token :
    (cs : List ℕ) (st : State) (s : Scanned)
    → get_token true cs ≡ s
    → is_eof s.token ≡ false
    → length s.value ≤ max_token_len
    → s.failed ≡ false
    → length s.rest < length cs
    → run cs st ≡ run s.rest (step st.phase s.token s.value st)
run-get_token cs st s got = subst (Round cs st) got (run-Round cs st)

pub run_end :
    (cs : List ℕ) (st : State) → is_eof (get_token true cs).token ≡ true → run cs st ≡ done st.map
unfolding run scan
run_end cs st e =
    let more : length cs + 1 ≡ suc (length cs) = omega arith in rw (more, scan) (rw (e, scan) refl)
