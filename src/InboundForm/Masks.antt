-- ===== src/InboundForm/Masks.antt =====
-- The final mask of a stream that is sent.
use x_ui_glass.Shared.{
  String, Bool, true, false, not, ◌&&◌, ◌≡◌, refl, ap, ◌∙◌, if◌then◌else◌, str_eq, arith,
  Bool-cases, inl, inr, ◌||◌, sym, eq_iff, any, [], ◌∷◌,
}
use x_ui_glass.Json.{
  Value, undefined, null, bool, num, str, arr, obj, nil, cons, Fields, prop, with_prop,
  without_prop,
}
use x_ui_glass.Json.Laws.{prop-with_prop, prop-without_prop, prop-with_prop_self}
use x_ui_glass.InboundForm.{is_nullish, has_mask, is_filled, drop_empty_mask, delete_unless}

module _ {N : Type 0} where
  -- A list that is not empty, and a value that is there.
  unfoldable pub has_entry : Value N → Bool
  has_entry (arr (cons v vs)) = true
  has_entry _ = false

  unfoldable pub is_given : Value N → Bool
  is_given undefined = false
  is_given null = false
  is_given _ = true

  abbrev pub masks : Fields N → Fields N
  masks fm =
      delete_unless (is_filled (prop fm "udp")) "udp"
        (delete_unless (is_filled (prop fm "tcp")) "tcp" fm)

  prop-delete_unless :
      (keep : Bool) (j k : String) (fs : Fields N)
      → prop (delete_unless keep j fs) k ≡ (if not keep && str_eq j k then undefined else prop fs k)
  prop-delete_unless true j k fs = refl
  prop-delete_unless false j k fs = prop-without_prop j k fs

  drop_mask :
      (stream fm : Fields N)
      → prop stream "finalmask" ≡ obj fm
      → drop_empty_mask stream ≡ (
          if has_mask fm
          then with_prop "finalmask" (obj (masks fm)) stream
          else without_prop "finalmask" stream)
  unfolding drop_empty_mask
  drop_mask stream fm h = rw h refl

  mask_read :
      (stream fm : Fields N)
      → prop stream "finalmask" ≡ obj fm
      → prop (drop_empty_mask stream) "finalmask"
        ≡ (if has_mask fm then obj (masks fm) else undefined)
  mask_read stream fm h = elim (Bool-cases (has_mask fm)) [
    | inl e ↦
        rw (drop_mask stream fm h, e) (prop-with_prop_self "finalmask" (obj (masks fm)) stream)
    | inr e ↦ rw (drop_mask stream fm h, e) (prop-without_prop "finalmask" "finalmask" stream)
  ]

  other_read :
      (stream fm : Fields N) (k : String)
      → prop stream "finalmask" ≡ obj fm
      → str_eq "finalmask" k ≡ false
      → prop (drop_empty_mask stream) k ≡ prop stream k
  other_read stream fm k h other = elim (Bool-cases (has_mask fm)) [
    | inl e ↦
        rw (drop_mask stream fm h, e)
          (prop-with_prop "finalmask" k (obj (masks fm)) stream ∙ rw other refl)
    | inr e ↦ rw (drop_mask stream fm h, e) (prop-without_prop "finalmask" k stream ∙ rw other refl)
  ]

  is_filled-has_entry : (v : Value N) → is_filled v ≡ has_entry v
  unfolding has_entry
  is_filled-has_entry undefined = refl
  is_filled-has_entry null = refl
  is_filled-has_entry (bool b) = refl
  is_filled-has_entry (num n) = refl
  is_filled-has_entry (str t) = refl
  is_filled-has_entry (arr nil) = refl
  is_filled-has_entry (arr (cons v vs)) = refl
  is_filled-has_entry (obj fs) = refl

  is_given-entries : (v : Value N) → is_given (if has_entry v then v else undefined) ≡ has_entry v
  unfolding has_entry is_given
  is_given-entries undefined = refl
  is_given-entries null = refl
  is_given-entries (bool b) = refl
  is_given-entries (num n) = refl
  is_given-entries (str t) = refl
  is_given-entries (arr nil) = refl
  is_given-entries (arr (cons v vs)) = refl
  is_given-entries (obj fs) = refl

  is_given-nullish : (v : Value N) → not (is_nullish v) ≡ is_given v
  unfolding is_given
  is_given-nullish undefined = refl
  is_given-nullish null = refl
  is_given-nullish (bool b) = refl
  is_given-nullish (num n) = refl
  is_given-nullish (str t) = refl
  is_given-nullish (arr vs) = refl
  is_given-nullish (obj fs) = refl

  prop-masks :
      (fm : Fields N) (j : String)
      → prop (masks fm) j ≡ (
          if (str_eq "tcp" j || str_eq "udp" j) && not (has_entry (prop fm j))
          then undefined
          else prop fm j)
  prop-masks fm j =
      let inner = delete_unless (is_filled (prop fm "tcp")) "tcp" fm in
      let read : prop (masks fm) j ≡ (
          if not (has_entry (prop fm "udp")) && str_eq "udp" j
          then undefined
          else if not (has_entry (prop fm "tcp")) && str_eq "tcp" j
          then undefined
          else prop fm j) =
        prop-delete_unless (is_filled (prop fm "udp")) "udp" j inner
        ∙ ap (λ v. if not (is_filled (prop fm "udp")) && str_eq "udp" j then undefined else v)
            (prop-delete_unless (is_filled (prop fm "tcp")) "tcp" j fm)
        ∙ rw (is_filled-has_entry (prop fm "udp"), is_filled-has_entry (prop fm "tcp")) refl in
      read ∙ elim (Bool-cases (str_eq "tcp" j)) [
        | inl e ↦ rw (sym ((eq_iff "tcp" j).0 e)) (ground arith)
        | inr e ↦ elim (Bool-cases (str_eq "udp" j)) [
          | inl e' ↦ rw (sym ((eq_iff "udp" j).0 e')) (ground arith)
          | inr e' ↦ rw (e, e') (ground arith)
        ]
      ]

  -- What is left in a final mask decides whether it is sent.
  has_mask-masks :
      (fm : Fields N)
      → has_mask fm ≡ any (λ j. is_given (prop (masks fm) j)) ("tcp" ∷ "udp" ∷ "quicParams" ∷ [])
  unfolding any
  has_mask-masks fm =
      let tcp : prop (masks fm) "tcp"
          ≡ (if has_entry (prop fm "tcp") then prop fm "tcp" else undefined) =
        prop-masks fm "tcp" ∙ ground arith in
      let udp : prop (masks fm) "udp"
          ≡ (if has_entry (prop fm "udp") then prop fm "udp" else undefined) =
        prop-masks fm "udp" ∙ ground arith in
      let quic : prop (masks fm) "quicParams" ≡ prop fm "quicParams" =
        prop-masks fm "quicParams" ∙ ground arith in
      let a =
        is_filled-has_entry (prop fm "tcp")
        ∙ sym (ap is_given tcp ∙ is_given-entries (prop fm "tcp")) in
      let b =
        is_filled-has_entry (prop fm "udp")
        ∙ sym (ap is_given udp ∙ is_given-entries (prop fm "udp")) in
      let c = is_given-nullish (prop fm "quicParams") ∙ sym (ap is_given quic) in
      (λ i. a i || b i || c i) ∙ ground arith

  -- A stream whose final mask is an object is sent without the lists of TCP and UDP masks that have
  -- no entry, and with the other properties of the mask as they were; the mask itself is sent
  -- exactly if a list or parameters are left in it, and the other properties of the stream are as
  -- they were.
  pub drop_empty_mask_lem :
      (stream fm : Fields N) (j k : String)
      → prop stream "finalmask" ≡ obj fm
      → str_eq "finalmask" k ≡ false
      → (prop (drop_empty_mask stream) "finalmask" ≡ (
          if any (λ l. is_given (prop (masks fm) l)) ("tcp" ∷ "udp" ∷ "quicParams" ∷ [])
          then obj (masks fm)
          else undefined))
        × (prop (masks fm) j ≡ (
            if (str_eq "tcp" j || str_eq "udp" j) && not (has_entry (prop fm j))
            then undefined
            else prop fm j))
        × (prop (drop_empty_mask stream) k ≡ prop stream k)
  drop_empty_mask_lem stream fm j k h other = (
    mask_read stream fm h ∙ ap (λ b. if b then obj (masks fm) else undefined) (has_mask-masks fm),
    prop-masks fm j,
    other_read stream fm k h other,
  )
