-- ===== src/Enforcement/Tags.antt =====
-- keystore/keymaster_enforcement.cpp: the loops that note the positions of tags, described by the tags
-- of a key alone.
use mathlib.Core.List.{append_assoc}
use system_security.Base.{
  ℕ, suc, ◌≡◌, refl, sym, ap, subst, ◌∙◌, Bool, true, false, ◌||◌, Option, none, some, List, [],
  ◌∷◌, ◌++◌, arith, if◌then◌else◌, is_some, get_elem?, length, length-append_one, get_elem?-length,
}
use system_security.Keymaster.{Authorizations, Tag}
use system_security.Enforcement.Begin.{Indices, note_index, scan_indices, indices, value_at}
use system_security.Enforcement.Operation.{scan, Scan, nothing_to_check, type_index}

abbrev pub is_timeout : Tag → Bool
is_timeout Tag.auth_timeout = true
is_timeout _ = false

abbrev pub is_auth_type : Tag → Bool
is_auth_type Tag.user_auth_type = true
is_auth_type _ = false

abbrev pub is_no_auth : Tag → Bool
is_no_auth Tag.no_auth_required = true
is_no_auth _ = false

module _ {Param : Type 0} (km : Authorizations Param) where
  -- Whether a key has a parameter with such a tag.
  unfoldable pub has : (Tag → Bool) → List Param → Bool
  has is [] = false
  has is (p ∷ ps) = is (km.tag p) || has is ps

  -- The position and the value of the last such parameter.
  unfoldable pub last_index : (Tag → Bool) → ℕ → List Param → Option ℕ → Option ℕ
  last_index is pos [] ix = ix
  last_index is pos (p ∷ ps) ix =
      last_index is (suc pos) ps (if is (km.tag p) then some pos else ix)

  unfoldable pub last_value : (Tag → Bool) → Tag → List Param → Option ℕ → Option ℕ
  last_value is t [] d = d
  last_value is t (p ∷ ps) d =
      last_value is t ps (if is (km.tag p) then km.authorization_value t p else d)

  or_last : (a b c : Bool) → (b || (a || c)) ≡ ((a || b) || c)
  or_last a b c = ground arith

  some_if :
      (b : Bool) (n : ℕ) (ix : Option ℕ) → is_some (if b then some n else ix) ≡ (b || is_some ix)
  some_if true n ix = refl
  some_if false n ix = refl

  pub last_index-has :
      (is : Tag → Bool) (pos : ℕ) (ps : List Param) (ix : Option ℕ)
      → is_some (last_index is pos ps ix) ≡ (has is ps || is_some ix)
  unfolding last_index has
  last_index-has is pos [] ix = refl
  last_index-has is pos (p ∷ ps) ix =
      last_index-has is (suc pos) ps (if is (km.tag p) then some pos else ix)
      ∙ ap (λ (b : Bool). has is ps || b) (some_if (is (km.tag p)) pos ix)
      ∙ or_last (is (km.tag p)) (has is ps) (is_some ix)

  value_if :
      (b : Bool) (t : Tag) (whole : List Param) (p : Param) (n : ℕ) (ix : Option ℕ)
      → get_elem? whole n ≡ some p
      → value_at km t whole (if b then some n else ix)
        ≡ (if b then km.authorization_value t p else value_at km t whole ix)
  value_if true t whole p n ix h = rw (value_at, h) refl
  value_if false t whole p n ix h = refl

  value-last_index :
      (is : Tag → Bool) (t : Tag) (whole before ps : List Param) (ix : Option ℕ)
      → whole ≡ before ++ ps
      → value_at km t whole (last_index is (length before) ps ix)
        ≡ last_value is t ps (value_at km t whole ix)
  unfolding last_index last_value
  value-last_index is t whole before [] ix h = refl
  value-last_index is t whole before (p ∷ ps) ix h =
      let next = if is (km.tag p) then some (length before) else ix in
      let here : get_elem? whole (length before) ≡ some p = rw h (get_elem?-length before ps p) in
      subst
        (λ (n : ℕ).
          value_at km t whole (last_index is n ps next)
          ≡ last_value is t ps (value_at km t whole next))
        (length-append_one before p)
        (value-last_index is t whole (before ++ p ∷ []) ps next
          (h ∙ sym (append_assoc before (p ∷ []) ps)))
      ∙ ap (last_value is t ps) (value_if (is (km.tag p)) t whole p (length before) ix here)

  -- The value at the last position is the value of the last parameter.
  pub value_of_last :
      (is : Tag → Bool) (t : Tag) (ps : List Param)
      → value_at km t ps (last_index is 0 ps none) ≡ last_value is t ps none
  value_of_last is t ps = value-last_index is t ps [] ps none refl

  noted :
      (t : Tag) (pos : ℕ) (ix : Indices)
      → note_index t pos ix ≡ record {
        auth_timeout_index = if is_timeout t then some pos else ix.auth_timeout_index;
        auth_type_index = if is_auth_type t then some pos else ix.auth_type_index;
        no_auth_required_index = if is_no_auth t then some pos else ix.no_auth_required_index;
      }
  unfolding note_index
  noted Tag.auth_timeout pos ix = refl
  noted Tag.user_auth_type pos ix = refl
  noted Tag.no_auth_required pos ix = refl
  noted _ pos ix = refl

  scan_indices-last_index :
      (pos : ℕ) (ps : List Param) (ix : Indices)
      → scan_indices km pos ps ix ≡ record {
        auth_timeout_index = last_index is_timeout pos ps ix.auth_timeout_index;
        auth_type_index = last_index is_auth_type pos ps ix.auth_type_index;
        no_auth_required_index = last_index is_no_auth pos ps ix.no_auth_required_index;
      }
  unfolding scan_indices last_index
  scan_indices-last_index pos [] ix = refl
  scan_indices-last_index pos (p ∷ ps) ix =
      ap (scan_indices km (suc pos) ps) (noted (km.tag p) pos ix)
      ∙ scan_indices-last_index (suc pos) ps _

  -- The positions that AuthorizeBegin notes.
  pub indices_lem :
      (ps : List Param)
      → indices km ps ≡ record {
        auth_timeout_index = last_index is_timeout 0 ps none;
        auth_type_index = last_index is_auth_type 0 ps none;
        no_auth_required_index = last_index is_no_auth 0 ps none;
      }
  indices_lem ps = scan_indices-last_index 0 ps _

  scan_tag :
      (t : Tag) (a b : Scan)
      → (elim t [
        | Tag.no_auth_required ↦ nothing_to_check
        | Tag.auth_timeout ↦ nothing_to_check
        | Tag.user_auth_type ↦ a
        | _ ↦ b
      ])
        ≡ (if is_no_auth t || is_timeout t
            then nothing_to_check
            else if is_auth_type t
            then a
            else b)
  scan_tag Tag.no_auth_required a b = refl
  scan_tag Tag.auth_timeout a b = refl
  scan_tag Tag.user_auth_type a b = refl
  scan_tag _ a b = refl

  abbrev described_scan : ℕ → List Param → Option ℕ → Scan
  described_scan pos ps ix =
      if has is_no_auth ps || has is_timeout ps
      then nothing_to_check
      else type_index (last_index is_auth_type pos ps ix)

  scan_step :
      (pos : ℕ) (p : Param) (ps : List Param) (ix : Option ℕ)
      → (if is_no_auth (km.tag p) || is_timeout (km.tag p)
          then nothing_to_check
          else if is_auth_type (km.tag p)
          then described_scan (suc pos) ps (some pos)
          else described_scan (suc pos) ps ix)
        ≡ described_scan pos (p ∷ ps) ix
  unfolding has last_index
  scan_step pos p ps ix = ground arith

  pub scan_lem :
      (pos : ℕ) (ps : List Param) (ix : Option ℕ) → scan km pos ps ix ≡ described_scan pos ps ix
  unfolding scan has last_index
  scan_lem pos [] ix = refl
  scan_lem pos (p ∷ ps) ix =
      scan_tag (km.tag p) _ _
      ∙ ground (arith, scan_lem (suc pos) ps (some pos), scan_lem (suc pos) ps ix)
      ∙ scan_step pos p ps ix
