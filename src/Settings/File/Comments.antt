-- ===== src/Settings/File/Comments.antt =====
-- A comment is cut into tokens as well, up to the end of its line.
use game_login.Base.{
  ℕ, zero, suc, ◌<◌, ◌≡◌, refl, ap, ◌∙◌, true, false, List, [], ◌∷◌, ◌++◌, arith, length,
  length-append, inl, inr, All,
}
use game_login.Settings.Tokens.{Token, new_line, is_new_line, bare, get_token}
use game_login.Settings.Tokens.Progress.{RunsFit, get_token-Ends}
use game_login.Settings.Tokens.Line.{IsPlain, behind, get_token-InLine, get_token-All}
use game_login.Settings.File.{State, in_comment, wait_key, run, step, skip_token}
use game_login.Settings.File.Ends.{run-get_token, ne-eof}

skip_inner : (t : Token) (st : State) → is_new_line t ≡ false → skip_token t st ≡ st
unfolding skip_token
skip_inner new_line st h = cc
skip_inner _ st h = refl

step_comment :
    (t : Token) (value : List ℕ) (st : State)
    → st.phase ≡ in_comment
    → step st.phase t value st ≡ skip_token t st
unfolding step
step_comment t value st c = rw (c, step) refl

-- Within a comment the loop reads on to the next line, and changes nothing else.
pub run_comment :
    (n : ℕ) (text tail : List ℕ) (st : State)
    → length text < n
    → st.phase ≡ in_comment
    → All IsPlain text
    → RunsFit text
    → run (text ++ b'\n' ∷ tail) st ≡ run tail (record st { phase = wait_key })
run_comment zero text tail st h c p f = absurd (omega arith)
run_comment (suc n) text tail st h c p f = elim (get_token-InLine tail text p) [
  | inl end ↦
      run-get_token _ st (bare new_line tail) end refl (omega arith) refl
        (omega (arith, length-append text (b'\n' ∷ tail)))
      ∙ ap (run tail) (step_comment new_line [] st c ∙ unfold skip_token in refl)
  | inr (got, inner) ↦
      let s = get_token true text in
      let r = get_token-Ends true text in
      let shorter = r.on (ne-eof s.token inner.0) in
      let next =
        run_comment n s.rest tail st (omega (arith, shorter)) c (get_token-All IsPlain text p)
          (r.fits f) in
      run-get_token _ st (behind (b'\n' ∷ tail) s) got inner.0 (r.few f) refl (
        omega
          (arith, length-append text (b'\n' ∷ tail), length-append s.rest (b'\n' ∷ tail), shorter))
      ∙ ap (run (s.rest ++ b'\n' ∷ tail))
          (step_comment s.token s.value st c ∙ skip_inner s.token st inner.1)
      ∙ next
]
