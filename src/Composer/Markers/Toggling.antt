-- ===== src/Composer/Markers/Toggling.antt =====
-- Pressing the shortcut of a marker twice.
use rivendell.Base.{
  ℕ, ◌+◌, ◌-◌, ◌*◌, ◌≤◌, ◌<◌, ◌≡◌, refl, sym, ap, ap₂, ◌∙◌, inl, inr, true, false, ◌&&◌, [], ◌++◌,
  arith, leb, ◌==◌, if◌then◌else◌, Bool-cases, length, length-append, append_assoc,
}
use rivendell.Regex.{Text, prefix}
use rivendell.Regex.Classes.{same_text}
use rivendell.UndoHistory.{Entry}
use rivendell.Composer.Markers.{drop, slice, flanked, holds_both, toggle_marker}
use rivendell.Composer.Markers.Slices.{
  same_text_refl, parts_of, nil_of, length-prefix, length-drop, length-slice, prefix_part,
  drop_part, slice_part,
}

-- The text with the marker around the selection.
wrapped : Text → Entry → Entry
wrapped m x = record {
  value =
      prefix x.start x.value ++ (m ++ (slice x.start x.end x.value ++ (m ++ drop x.end x.value)));
  start = x.start + length m;
  end = x.end + length m;
}

length_three : (a b c : Text) → length (a ++ (b ++ c)) ≡ length a + (length b + length c)
length_three a b c = omega (arith, length-append a (b ++ c), length-append b c)

unwrapped_shorter :
    (i k l j : ℕ) (v : Text)
    → i ≤ k
    → l ≤ j
    → k ≤ j
    → length (prefix i v ++ (slice k l v ++ drop j v)) ≤ length v
unwrapped_shorter i k l j v a b c = omega (
  arith,
  length_three (prefix i v) (slice k l v) (drop j v),
  length-prefix i v,
  length-slice k l v,
  length-drop j v,
  a,
  b,
  c,
)

inside_fits : (m v : Text) (i j : ℕ) → i ≤ j → holds_both m v i j ≡ true → i + length m ≤ j
inside_fits m v i j l h = ground (arith, l, h)

longer-wrapped :
    (m : Text) (x : Entry)
    → x.start ≤ x.end
    → length x.value < length (toggle_marker m x).value
    → toggle_marker m x ≡ wrapped m x
unfolding toggle_marker wrapped
longer-wrapped m x l h =
    let n = length m in
    elim (Bool-cases (x.start == x.end && same_text (slice x.start (x.start + n) x.value) m)) [
      | inl e ↦ absurd (omega (arith, rw (toggle_marker, e) at h))
      | inr e ↦ elim (Bool-cases (flanked m x.value x.start x.end)) [
        | inl f ↦ absurd (
            omega (
              arith,
              rw (toggle_marker, e, f) at h,
              unwrapped_shorter (x.start - n) x.start x.end (x.end + n) x.value (omega arith)
                  (omega arith) (omega arith),
            ))
        | inr f ↦ elim (Bool-cases (holds_both m x.value x.start x.end)) [
          | inl g ↦ absurd (
              omega (
                arith,
                rw (toggle_marker, e, f, g) at h,
                unwrapped_shorter x.start (x.start + n) (x.end - n) x.end x.value (omega arith)
                    (omega arith) (inside_fits m x.value x.start x.end l g),
              ))
          | inr g ↦ rw (toggle_marker, e, f, g)
        ]
      ]
    ]

exits :
    (m : Text) (y : Entry)
    → y.start == y.end ≡ true
    → same_text (slice y.start (y.start + length m) y.value) m ≡ true
    → toggle_marker m y
      ≡ record { value = y.value; start = y.start + length m; end = y.start + length m }
unfolding toggle_marker
exits m y e f = rw (toggle_marker, e, f)

unwraps :
    (m : Text) (y : Entry)
    → y.start == y.end ≡ false
    → flanked m y.value y.start y.end ≡ true
    → toggle_marker m y ≡ record {
      value =
          prefix (y.start - length m) y.value
          ++ (slice y.start y.end y.value ++ drop (y.end + length m) y.value);
      start = y.start - length m;
      end = y.end - length m;
    }
unfolding toggle_marker
unwraps m y e f = rw (toggle_marker, e, f)

same_entry :
    (v w : Text) (i k j l : ℕ)
    → v ≡ w
    → i ≡ k
    → j ≡ l
    → Path Entry
        (record { value = v; start = i; end = j })
        (record { value = w; start = k; end = l })
same_entry v w i k j l e f g = cc

twice : Text → Text → Text → Text → Entry
twice m a b c = record {
  value = a ++ (m ++ (b ++ (m ++ c)));
  start = length a + length m;
  end = (length a + length b) + length m;
}

-- The press steps out of markers with nothing in between.
steps_out :
    (m a c : Text)
    → toggle_marker m (twice m a [] c) ≡ record {
      value = a ++ (m ++ (m ++ c));
      start = length a + 2 * length m;
      end = length a + 2 * length m;
    }
unfolding toggle_marker twice
steps_out m a c =
    let v = a ++ (m ++ (m ++ c)) in
    let i = length a + length m in
    let cut : slice i (i + length m) v ≡ m =
      slice_part (a ++ m) m c v i (i + length m) (sym (append_assoc a m (m ++ c)))
        (omega (arith, length-append a m)) (omega (arith, length-append a m)) in
    let same : same_text (slice i (i + length m) v) m ≡ true = rw (cut) (same_text_refl m) in
    exits m (twice m a [] c) (ground arith) same
    ∙ same_entry v v _ _ _ _ refl (omega arith) (omega arith)

-- The press takes markers around a text away.
takes_away :
    (m a b c : Text)
    → 0 < length b
    → toggle_marker m (twice m a b c)
      ≡ record { value = a ++ (b ++ c); start = length a; end = length a + length b }
unfolding toggle_marker twice
takes_away m a b c h =
    let v = a ++ (m ++ (b ++ (m ++ c))) in
    let n = length m in
    let i = length a + n in
    let j = (length a + length b) + n in
    let apart : i == j ≡ false = ground (arith, h) in
    let before : slice (i - n) i v ≡ m =
      slice_part a m (b ++ (m ++ c)) v (i - n) i refl (omega arith) (omega arith) in
    let am = a ++ m in
    let amb = am ++ b in
    let v2 : v ≡ am ++ (b ++ (m ++ c)) = sym (append_assoc a m (b ++ (m ++ c))) in
    let v3 : v ≡ amb ++ (m ++ c) = v2 ∙ sym (append_assoc am b (m ++ c)) in
    let la : length am ≡ i = length-append a m in
    let lb : length amb ≡ j = omega (arith, length-append am b, la) in
    let after : slice j (j + n) v ≡ m =
      slice_part amb m c v j (j + n) v3 (sym lb) (omega (arith, lb)) in
    let inner : slice i j v ≡ b = slice_part am b (m ++ c) v i j v2 (sym la) (omega (arith, la)) in
    let front : prefix (i - n) v ≡ a =
      prefix_part a (m ++ (b ++ (m ++ c))) v (i - n) refl (omega arith) in
    let back : drop (j + n) v ≡ c =
      drop_part (amb ++ m) c v (j + n) (v3 ∙ sym (append_assoc amb m c))
        (omega (arith, length-append amb m, lb)) in
    let fits : leb n i ≡ true = ground arith in
    let both : flanked m v i j ≡ true = rw (fits, before, after, same_text_refl m) in
    unwraps m (twice m a b c) apart both
    ∙ same_entry _ _ _ _ _ _ (ap₂ (λ x y. x ++ y) front (ap₂ (λ x y. x ++ y) inner back))
        (omega arith) (omega arith)

-- Pressing the shortcut of a marker twice. If the first press lengthens the text, the second one gives the text and the selection back, or, where nothing is selected, leaves the text and steps out behind both markers.
pub toggle_marker_twice :
    (m : Text) (x : Entry)
    → x.start ≤ x.end
    → x.end ≤ length x.value
    → length x.value < length (toggle_marker m x).value
    → toggle_marker m (toggle_marker m x) ≡ (
        if x.start == x.end
        then record {
          value = (toggle_marker m x).value;
          start = x.start + 2 * length m;
          end = x.start + 2 * length m;
        }
        else x)
unfolding twice wrapped
toggle_marker_twice m x l g h =
    let v = x.value in
    let a = prefix x.start v in
    let b = slice x.start x.end v in
    let c = drop x.end v in
    let w = longer-wrapped m x l h in
    let la : length a ≡ x.start = omega (arith, length-prefix x.start v, l, g) in
    let lb : length a + length b ≡ x.end = omega (arith, la, length-slice x.start x.end v, l, g) in
    let made : toggle_marker m x ≡ twice m a b c =
      w ∙ same_entry _ _ _ _ _ _ refl (omega (arith, la)) (omega (arith, lb)) in
    elim (Bool-cases (x.start == x.end)) [
      | inl e ↦
          let b0 : b ≡ [] = nil_of b (ground (arith, e, la, lb)) in
          let made2 : toggle_marker m x ≡ twice m a [] c = made ∙ ap (λ s. twice m a s c) b0 in
          ap (toggle_marker m) made2
          ∙ (steps_out m a c
              ∙ rw (e) (
                  same_entry _ _ _ _ _ _ (sym (ap Entry.value made2)) (omega (arith, la))
                    (omega (arith, la))))
      | inr e ↦ rw (e) (
          ap (toggle_marker m) made
          ∙ (takes_away m a b c (ground (arith, e, la, lb, l))
              ∙ same_entry _ _ _ _ _ _ (sym (parts_of x.start x.end v l)) la lb))
    ]
