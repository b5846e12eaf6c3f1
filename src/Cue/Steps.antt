-- ===== src/Cue/Steps.antt =====
-- cue.go: what holds in the loop of `ParseCue`.
use miniscram.Common.{
  ℕ, ◌+◌, ◌-◌, ◌<◌, ◌≡◌, refl, sym, ap, ◌∙◌, arith, Bool, true, false, not, ◌&&◌, ◌||◌, Option,
  none, some, List, [], ◌∷◌, All, length, drop, leb, bytes_equal, codes, ℤ, pos, ltb_ℤ, eqb_ℤ,
  pos_part, ok, err, ◌⊎◌, inl, inr, Ensures, Ensures->>=, Ensures-if, Ensures-guard, Ensures-or_err,
}
use mathlib.Core.Path.{subst}
use miniscram.Disc.{Track}
use miniscram.Text.{is_empty, atoi, trim_space, fields, to_upper, equal_fold}
use miniscram.Cue.Parse.{
  CueError, CueState, flush_track, end_track, begin_session, rem_line, raw_name, has_path_part,
  begin_file, file_line, begin_track, track_line, index_line, is_rem, word_line, parse_line,
  parse_lines, parsed_tracks, is_valid_mode, field_at, parse_msf, no_tracks,
}
use miniscram.Cue.State.{
  IsPlain, IsParsed, Rising, Inv, Rising-le, not-true, session_bounds, Flushed, flush_track-Flushed,
  end_track-Flushed,
}

begin_session-Inv :
    (field : List ℕ) (n : ℤ) (st : CueState) → Inv st → Ensures Inv (begin_session field n st)
unfolding begin_session
begin_session-Inv field n st inv =
    Ensures-if Inv (ltb_ℤ n (pos 1) || ltb_ℤ (pos 255) n) _ _ (λ bad. tt)
      (λ fits.
        Ensures-if Inv (ltb_ℤ n (pos st.current_session)) _ _ (λ less. tt)
          (λ least.
            Ensures-if Inv (eqb_ℤ n (pos st.current_session)) _ _ (λ same. inv)
              (λ other.
                Ensures->>= (λ (ended : CueState). Flushed st ended × (ended.cur ≡ none)) Inv
                  (end_track st) _ (end_track-Flushed st inv)
                  (λ ended (((parsed, rising, small, current, file), session, name), e). (
                    parsed,
                    Rising-le 1 ended.tracks ended.current_session (pos_part n) rising
                        (omega (arith, (session_bounds n st.current_session fits least).0)),
                    (session_bounds n st.current_session fits least).1,
                    rw e tt,
                    file,
                  )))))

rem_line-Inv : (fs : List (List ℕ)) (st : CueState) → Inv st → Ensures Inv (rem_line fs st)
unfolding rem_line
rem_line-Inv fs st inv =
    Ensures-if Inv (leb 2 (length fs) && equal_fold (field_at 0 fs) (codes "SESSION")) _ _
      (λ session.
        Ensures-or_err Inv (atoi (field_at 1 fs)) _ _
          (λ n e. begin_session-Inv (field_at 1 fs) n st inv))
      (λ other. inv)

begin_file-Inv : (name : List ℕ) (st : CueState) → Inv st → Ensures Inv (begin_file name st)
unfolding begin_file
begin_file-Inv name st inv = Ensures-guard Inv (not (is_empty name)) _ _ (λ named.
    Ensures-guard Inv (not (has_path_part name)) _ _ (λ plain.
      Ensures->>= (λ (ended : CueState). Flushed st ended × (ended.cur ≡ none)) Inv (end_track st) _
        (end_track-Flushed st inv)
        (λ ended (((parsed, rising, small, current, file), session, same), e). (
          parsed,
          rising,
          small,
          current,
          inr (not-true (is_empty name) named, not-true (has_path_part name) plain),
        ))))

file_line-Inv :
    (line : List ℕ) (fs : List (List ℕ)) (st : CueState)
    → Inv st
    → Ensures Inv (file_line line fs st)
unfolding file_line
file_line-Inv line fs st inv = Ensures-guard Inv (leb 3 (length fs)) _ _ (λ long.
    Ensures-guard Inv (bytes_equal (field_at (length fs - 1) fs) (codes "BINARY")) _ _
      (λ binary. begin_file-Inv (raw_name line (field_at (length fs - 1) fs)) st inv))

begin_track-Inv :
    (line : List ℕ) (fs : List (List ℕ)) (st : CueState)
    → Inv st
    → is_empty st.current_file ≡ false
    → Ensures Inv (begin_track line fs st)
unfolding begin_track
begin_track-Inv line fs st (parsed, rising, small, current, file) named =
    Ensures-guard Inv (leb (st.file_track_count + 1) 1) _ _ (λ first.
      Ensures-guard Inv (leb 3 (length fs)) _ _ (λ long.
        Ensures-or_err Inv (atoi (field_at 1 fs)) _ _ (λ n e.
          Ensures-guard Inv (is_valid_mode (field_at 2 fs)) _ _
            (λ valid. (parsed, rising, small, ((plain file, valid, refl, refl), refl), file)))))
  where
    plain : (is_empty st.current_file ≡ true) ⊎ IsPlain st.current_file → IsPlain st.current_file
    plain (inl e) = let no : true ≡ false = sym e ∙ named in absurd cc
    plain (inr h) = h

track_line-Inv :
    (line : List ℕ) (fs : List (List ℕ)) (st : CueState)
    → Inv st
    → Ensures Inv (track_line line fs st)
unfolding track_line
track_line-Inv line fs st inv = Ensures-guard Inv (not (is_empty st.current_file)) _ _ (λ named.
    Ensures->>= (Flushed st) Inv (flush_track st) _ (flush_track-Flushed st inv)
      (λ flushed (inv', session, same).
        begin_track-Inv line fs flushed inv'
          (ap is_empty same ∙ not-true (is_empty st.current_file) named)))

index_line-Inv :
    (line : List ℕ) (fs : List (List ℕ)) (st : CueState)
    → Inv st
    → Ensures Inv (index_line line fs st)
unfolding index_line
index_line-Inv line fs st inv = go st.cur refl
  where
    go : (cur : Option Track) → st.cur ≡ cur → Ensures Inv (index_line line fs st)
    go none e = rw (e, index_line) tt
    go (some t) e =
        rw (e, index_line)
          (Ensures-if Inv (not (leb 3 (length fs))) _ _ (λ short. tt)
            (λ long.
              Ensures-if Inv (not (bytes_equal (field_at 1 fs) (codes "01"))) _ _ (λ other. inv)
                (λ first. Ensures-or_err Inv (parse_msf (field_at 2 fs)) _ _ (λ msf valid. inv))))

word_line-Inv :
    (line : List ℕ) (fs : List (List ℕ)) (st : CueState)
    → Inv st
    → Ensures Inv (word_line line fs st)
unfolding word_line
word_line-Inv line fs st inv =
    Ensures-if Inv (bytes_equal (field_at 0 fs) (codes "FILE")) _ _
      (λ is_file. file_line-Inv line fs st inv)
      (λ no_file.
        Ensures-if Inv (bytes_equal (field_at 0 fs) (codes "TRACK")) _ _
          (λ is_track. track_line-Inv line fs st inv)
          (λ no_track.
            Ensures-if Inv (bytes_equal (field_at 0 fs) (codes "INDEX")) _ _
              (λ is_index. index_line-Inv line fs st inv) (λ no_index. inv)))

parse_line-Inv : (text : List ℕ) (st : CueState) → Inv st → Ensures Inv (parse_line text st)
unfolding parse_line
parse_line-Inv text st inv =
    let line = trim_space text in
    Ensures-if Inv (is_empty line) _ _ (λ blank. inv)
      (λ filled.
        Ensures-if Inv (is_rem (to_upper line)) _ _
          (λ remark. rem_line-Inv (fields (trim_space (drop 3 line))) st inv)
          (λ other. word_line-Inv line (fields line) st inv))

pub parse_lines-Inv :
    (texts : List (List ℕ)) (st : CueState) → Inv st → Ensures Inv (parse_lines texts st)
unfolding parse_lines
parse_lines-Inv [] st inv = inv
parse_lines-Inv (text ∷ texts) st inv =
    Ensures->>= Inv Inv (parse_line text st) _ (parse_line-Inv text st inv)
      (λ next inv'. parse_lines-Inv texts next inv')

-- What the parser returns.
abbrev pub IsOutput : List Track → Type 0
IsOutput ts = (0 < length ts) × All IsParsed ts × Rising 1 ts 255

pub parsed_tracks-IsOutput :
    (failed : Bool) (st : CueState) → Inv st → Ensures IsOutput (parsed_tracks failed st)
unfolding parsed_tracks
parsed_tracks-IsOutput failed st inv = Ensures-guard IsOutput (not failed) _ _ (λ read.
    Ensures->>= (Flushed st) IsOutput (flush_track st) _ (flush_track-Flushed st inv)
      (λ flushed (inv', session, same). go flushed flushed.tracks refl inv'))
  where
    go :
        (flushed : CueState) (ts : List Track)
        → flushed.tracks ≡ ts
        → Inv flushed
        → Ensures {E = CueError} IsOutput
            (elim flushed.tracks [ [] ↦ err no_tracks | t ∷ ts ↦ ok (t ∷ ts) ])
    go flushed [] e inv' = rw e tt
    go flushed (t ∷ ts) e (parsed, rising, small, current, file) = rw e (
      omega arith,
      subst (All IsParsed) e parsed,
      Rising-le 1 (t ∷ ts) flushed.current_session 255
          (subst (λ (l : List Track). Rising 1 l flushed.current_session) e rising) small,
    )
