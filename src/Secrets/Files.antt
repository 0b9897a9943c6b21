-- ===== src/Secrets/Files.antt =====
-- The file store as a map: `FileSecretStore`.
use mathlib.Core.Path.{subst, fun_ext}
use claim_automation_cloud.Prelude.{
  ◌≡◌, refl, sym, ap, ◌∙◌, inl, inr, true, false, Option, none, some, List, [], ◌∷◌, if◌then◌else◌,
  arith,
}
use claim_automation_cloud.Text.{Text, text_eq, text_eq_iff}
use claim_automation_cloud.Exec.{Error, Result, ok, err, Exec, ◌>>=◌}
use claim_automation_cloud.Exec.Inversion.{
  bind-eq_ok, bind-eq_ok, bind-cases, bind_after, call-eq_ok, ok-injective,
}
use claim_automation_cloud.Secrets.{
  Dict, look, assign, FileSystem, JsonText, read_all, file_get, file_set, file_store,
}
use claim_automation_cloud.Secrets.Spec.{
  SecretMap, update, IsSecretStore, Write, Replays, attempts, run_writes, run_writes-Replays,
  run_writes-valid,
}

look-assign :
    (name value other : Text) (d : Dict)
    → look other (assign name value d) ≡ (if text_eq name other then some value else look other d)
unfolding look assign
look-assign name value other [] = refl
look-assign name value other ((key, old) ∷ d) = ground (
  arith,
  text_eq_iff name other,
  text_eq_iff key name,
  text_eq_iff key other,
  look-assign name value other d,
)

-- What the store relies on of the file system and of `json`. The files are those of a world in which no
-- other process writes them; a write that fails may leave anything in the temporary file.
pub record FileLaws {W : Type 0} (files : FileSystem W) (json : JsonText) : Type 0 where
  pub content : W → Option Text
  pub staged : W → Option Text
  pub exists_none : (w : W) → content w ≡ none → files.exists w ≡ (ok false, w)
  pub exists_some : (w : W) (t : Text) → content w ≡ some t → files.exists w ≡ (ok true, w)
  pub read_ok : (w : W) (t : Text) → content w ≡ some t → files.read_text w ≡ (ok t, w)
  pub write_keeps : (t : Text) (w : W) → content (files.write_tmp t w).1 ≡ content w
  pub write_ok :
      (t : Text) (w : W) {u : Unit {0}} {w' : W}
      → files.write_tmp t w ≡ (ok u, w')
      → staged w' ≡ some t
  pub replace_ok :
      (w : W) {u : Unit {0}} {w' : W} → files.replace w ≡ (ok u, w') → content w' ≡ staged w
  pub replace_err :
      (w : W) {e : Error} {w' : W} → files.replace w ≡ (err e, w') → content w' ≡ content w
  pub loads-dumps : (d : Dict) → json.loads (json.dumps d) ≡ ok d

module _ {W : Type 0} (files : FileSystem W) (json : JsonText) (laws : FileLaws files json) where
  -- The dictionary that a file holds.
  abbrev dict_in : Option Text → Result Dict
  dict_in none = ok []
  dict_in (some t) = json.loads t

  abbrev dict_or_empty : Result Dict → Dict
  dict_or_empty (ok d) = d
  dict_or_empty (err e) = []

  abbrev held : W → Dict
  held w = dict_or_empty (dict_in (laws.content w))

  -- The file is absent, or a dictionary.
  abbrev pub IsReadable : W → Type 0
  IsReadable w = (d : Dict) × (dict_in (laws.content w) ≡ ok d)

  abbrev view_of : Option Text → SecretMap
  view_of c name = look name (dict_or_empty (dict_in c))

  abbrev pub file_view : W → SecretMap
  file_view w = view_of (laws.content w)

  read_all-eq :
      (w : W) (d : Dict) → dict_in (laws.content w) ≡ ok d → read_all files json w ≡ (ok d, w)
  unfolding read_all ◌>>=◌
  read_all-eq w d h = go (laws.content w) refl h
    where
      go :
          (c : Option Text)
          → laws.content w ≡ c
          → dict_in c ≡ ok d
          → read_all files json w ≡ (ok d, w)
      go none e k = rw (laws.exists_none w e, ok-injective k)
      go (some t) e k = rw (laws.exists_some w t e, laws.read_ok w t e, k)

  held-eq : (w : W) (d : Dict) → dict_in (laws.content w) ≡ ok d → held w ≡ d
  held-eq w d h = ap dict_or_empty h

  -- A write that was answered replaced the dictionary by the assigned one; one that failed left it.
  module _ (name value : Text) (w : W) (d : Dict) (h : dict_in (laws.content w) ≡ ok d) where
    abbrev rest : Dict → Exec W (Unit {0})
    rest secrets = files.write_tmp (json.dumps (assign name value secrets)) >>= λ _. files.replace

    opened : file_set files json name value w ≡ rest d w
    unfolding file_set
    opened = bind_after (read_all files json) rest w (read_all-eq w d h)

    kept :
        {r : Result (Unit {0})} {v : W}
        → files.write_tmp (json.dumps (assign name value d)) w ≡ (r, v)
        → laws.content v ≡ laws.content w
    kept p =
        ap (λ (x : Result (Unit {0}) × W). laws.content x.1) (sym p)
        ∙ laws.write_keeps (json.dumps (assign name value d)) w

    file_set-ok :
        {u : Unit {0}} {w' : W}
        → file_set files json name value w ≡ (ok u, w')
        → dict_in (laws.content w') ≡ ok (assign name value d)
    file_set-ok k =
        let (a, v, p, q) =
          bind-eq_ok (files.write_tmp (json.dumps (assign name value d))) (λ _. files.replace) w
            (sym opened ∙ k) in
        ap dict_in (laws.replace_ok v q ∙ laws.write_ok (json.dumps (assign name value d)) w p)
        ∙ laws.loads-dumps (assign name value d)

    file_set-err :
        {e : Error} {w' : W}
        → file_set files json name value w ≡ (err e, w')
        → laws.content w' ≡ laws.content w
    file_set-err {e = e} {w' = w'} k =
        elim (bind-cases (files.write_tmp (json.dumps (assign name value d))) (λ _. files.replace)
          w) [
            | inl (x, v, p, q) ↦
                ap (λ (r : Result (Unit {0}) × W). laws.content r.1) (sym (sym opened ∙ k) ∙ q)
                ∙ kept p
            | inr (a, v, p, q) ↦ laws.replace_err v (sym q ∙ sym opened ∙ k) ∙ kept p
          ]

  file_get-eq :
      (name : Text) (w : W) (d : Dict)
      → dict_in (laws.content w) ≡ ok d
      → file_get files json name w ≡ (ok (look name d), w)
  unfolding file_get ◌>>=◌
  file_get-eq name w d h = rw (read_all-eq w d h)

  file_get-view :
      (name : Text) (w : W) → IsReadable w → file_get files json name w ≡ (ok (file_view w name), w)
  file_get-view name w (d, h) =
      file_get-eq name w d h ∙ ap (λ (x : Dict). (ok (look name x), w)) (sym (held-eq w d h))

  abbrev file_spec : IsSecretStore (file_store files json)
  file_spec = record {
    IsValid = IsReadable;
    view = file_view;
    get_ok = λ name w valid k.
        let e = sym (file_get-view name w valid) ∙ k in
        let (p, q) = call-eq_ok (ok (file_view w name)) w e in
        (sym (ok-injective p), subst IsReadable q valid, ap file_view (sym q));
    set_ok = λ name value w (d, h) k.
        let written = file_set-ok name value w d h k in
        (
          (assign name value d, written),
          fun_ext (λ other.
              ap (look other) (held-eq _ _ written)
              ∙ look-assign name value other d
              ∙ ap (λ (x : Dict). update (λ n. look n x) name value other) (sym (held-eq w d h))),
        );
    set_err = λ name value w (d, h) k.
        let same = file_set-err name value w d h k in
        ((d, ap dict_in same ∙ h), inl (ap view_of same));
  }

  -- Where no other process writes the file: whatever writes the file store takes, on a file that is
  -- absent or a dictionary, each get of a name afterwards answers with what a map from names to
  -- secrets holds after the same writes, where only a write that raised may be left out.
  pub file_store-Replays :
      (ws : List Write) (w : W)
      → IsReadable w
      → (g : SecretMap) × Replays (attempts (file_store files json) ws w) (file_view w) g
        × ((name : Text)
            → file_get files json name (run_writes (file_store files json) ws w)
              ≡ (ok (g name), run_writes (file_store files json) ws w))
  file_store-Replays ws w valid =
      let spec = file_spec in
      let end = run_writes (file_store files json) ws w in
      (
        file_view end,
        run_writes-Replays (file_store files json) spec ws w valid,
        λ name. file_get-view name end (run_writes-valid (file_store files json) spec ws w valid),
      )
