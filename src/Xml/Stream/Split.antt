-- ===== src/Xml/Stream/Split.antt =====
-- TwsXml::nextXmlDoc of src/tws_xml.cpp cuts the file at its form feeds.
use twstools.Base.{
  ℕ, suc, ◌+◌, ◌≤◌, ◌≡◌, refl, sym, ap, ◌∙◌, subst, inl, inr, ltb, leb, ◌==◌, Bool, true, false,
  ◌||◌, Option, List, [], ◌∷◌, ◌++◌, if◌then◌else◌, length, length-append, All, Returns,
  Returns-bind, Bool-cases, arith,
}
use mathlib.Core.List.{append_assoc, append-nil}
use twstools.Base.Text.{Text, empty}
use twstools.Base.Cuts.{
  take, drop, concat, take-append, drop-append, take_all, drop_all, drop_front, length-drop,
}
use twstools.Xml.Stream.{
  form_feed, chunk_size, find_form_feed, Input, Scan, scan, is_full, make_room, next_cp,
  next_xml_doc,
}

unfoldable pub has_ff : Text → Bool
has_ff [] = false
has_ff (c ∷ s) = (c == form_feed) || has_ff s

-- A text up to its first form feed, and behind it.
unfoldable pub before_ff : Text → Text
before_ff [] = []
before_ff (c ∷ s) = let rest = c ∷ before_ff s in if c == form_feed then [] else rest

unfoldable pub after_ff : Text → Text
after_ff [] = []
after_ff (c ∷ s) = let rest = after_ff s in if c == form_feed then s else rest

-- What fread delivers: a call gives no byte only at the end.
abbrev pub IsRead : Text → Type 0
IsRead r = (1 ≤ length r) × (length r ≤ chunk_size)

-- What is not yet taken out of the buffer or the file.
abbrev pub content : Input → Text
content t = t.buf ++ concat t.reads

-- The buffer is large enough for what it holds, and the file behaves.
pub record IsSound (t : Input) : Type 0 where
  pub fits : length t.buf ≤ t.buf_size
  pub reads : All IsRead t.reads

find_hit :
    (s : Text)
    → has_ff s ≡ true
    → (ltb (find_form_feed s (length s)) (length s) ≡ true)
      × (has_ff (take (find_form_feed s (length s)) s) ≡ false)
      × (s
          ≡ take (find_form_feed s (length s)) s
            ++ form_feed ∷ drop (find_form_feed s (length s) + 1) s)
unfolding has_ff find_form_feed
find_hit [] h = absurd (ground (arith, h))
find_hit (c ∷ s) h = elim (Bool-cases (c == form_feed)) [
  | inl hit ↦
      let same : c ≡ form_feed = ground (arith, hit) in
      rw hit (ground arith, refl, ap (λ d. d ∷ s) same)
  | inr miss ↦
      let ih = find_hit s (ground (arith, h, miss)) in
      let f = find_form_feed s (length s) in
      let e : suc f + 1 ≡ suc (f + 1) = omega arith in
      rw (miss, e) (ground (arith, ih.0), ground (arith, miss, ih.1), ap (◌∷◌ c) ih.2)
]

find_miss : (s : Text) → has_ff s ≡ false → find_form_feed s (length s) ≡ length s
unfolding has_ff find_form_feed
find_miss [] h = refl
find_miss (c ∷ s) h = ground (arith, h, find_miss s)

-- What the loop leaves of a file of this content.
pub record IsCut (whole : Text) (r : Scan) : Type 0 where
  pub sound : IsSound r.input
  pub inside : r.cp + (if r.jump_ff then 1 else 0) ≤ length r.input.buf
  pub first : has_ff (take r.cp r.input.buf) ≡ false
  pub cut :
      whole
      ≡ take r.cp r.input.buf
        ++ (if r.jump_ff
            then form_feed ∷ (drop (r.cp + 1) r.input.buf ++ concat r.input.reads)
            else [])
  pub ended : r.jump_ff ≡ false → drop r.cp r.input.buf ++ concat r.input.reads ≡ []

has_ff-append : (s t : Text) → has_ff s ≡ false → has_ff t ≡ false → has_ff (s ++ t) ≡ false
unfolding has_ff
has_ff-append [] t h k = k
has_ff-append (c ∷ s) t h k = ground (arith, h, has_ff-append s t (ground (arith, h)) k)

-- The bytes before cp, and those that are searched.
found :
    (seen part : Text) (reads : List Text) (size : ℕ)
    → has_ff seen ≡ false
    → has_ff part ≡ true
    → length (seen ++ part) ≤ size
    → All IsRead reads
    → IsCut (seen ++ part ++ concat reads) (record {
      cp = length seen + find_form_feed part (length part);
      jump_ff = true;
      input = record { buf_size = size; buf = seen ++ part; reads = reads };
    })
found seen part reads size clean hit fits ok =
    let (inside, first, cut) = find_hit part hit in
    let f = find_form_feed part (length part) in
    let e : length seen + f + 1 ≡ length seen + (f + 1) = omega arith in
    record {
      sound = record { fits = fits; reads = ok };
      inside = ground (arith, inside, length-append seen part);
      first = rw (take-append f seen part) (has_ff-append seen (take f part) clean first);
      cut =
          rw (take-append f seen part, e, drop-append (f + 1) seen part)
            (append_assoc seen part (concat reads)
              ∙ ap (λ r. seen ++ r)
                  (ap (λ p. p ++ concat reads) cut
                    ∙ append_assoc (take f part) (form_feed ∷ drop (f + 1) part) (concat reads))
              ∙ sym (
                  append_assoc seen (take f part)
                    (form_feed ∷ (drop (f + 1) part ++ concat reads))));
      ended = λ h. absurd (ground (arith, h));
    }

room : (t : Input) → length t.buf ≤ t.buf_size → length t.buf + chunk_size ≤ (make_room t).buf_size
unfolding make_room is_full
room t fits = ground arith

next_cp_lem : (t : Input) (cp : ℕ) → cp ≡ length t.buf → next_cp t cp ≡ length t.buf
unfolding next_cp
next_cp_lem t cp e = ground (arith, e)

-- At the end of the file.
over :
    (seen part : Text) (t : Input)
    → has_ff seen ≡ false
    → has_ff part ≡ false
    → t.buf ≡ seen ++ part
    → t.reads ≡ []
    → length t.buf ≤ t.buf_size
    → IsCut (seen ++ part) (record { cp = length t.buf; jump_ff = false; input = make_room t })
unfolding make_room
over seen part t clean miss e ended fits = record {
  sound = record { fits = ground (arith, room t fits); reads = rw ended tt };
  inside = omega arith;
  first = rw (take_all t.buf, e) (has_ff-append seen part clean miss);
  cut = rw (take_all t.buf, append-nil) (sym e);
  ended = λ h. rw (drop_all t.buf, ended) refl;
}

lt_room :
    (t : Input)
    → length t.buf ≤ t.buf_size
    → leb (length t.buf + chunk_size) (make_room t).buf_size ≡ true
lt_room t fits = ground (arith, room t fits)

ltb_irrefl : (n : ℕ) → ltb n n ≡ false
ltb_irrefl n = ground arith

not_empty : (r : Text) → 1 ≤ length r → empty r ≡ false
not_empty [] h = absurd (omega (arith, h))
not_empty (c ∷ r) h = refl

scan-IsCut :
    (reads : List Text) (size : ℕ) (seen part : Text)
    → has_ff seen ≡ false
    → length (seen ++ part) ≤ size
    → All IsRead reads
    → Returns
        (IsCut (seen ++ part ++ concat reads))
        (scan reads size (length seen) (length part) (seen ++ part))
unfolding scan
scan-IsCut [] size seen part clean fits ok = elim (Bool-cases (has_ff part)) [
  | inl hit ↦
      rw (drop_front seen part, (find_hit part hit).0) (found seen part [] size clean hit fits ok)
  | inr miss ↦
      let t : Input = record { buf_size = size; buf = seen ++ part; reads = [] } in
      let at = next_cp_lem t (length seen + length part) (omega (arith, length-append seen part)) in
      let roomy = lt_room t fits in
      rw
        (
          drop_front seen part,
          find_miss part miss,
          ltb_irrefl (length part),
          at,
          roomy,
          append-nil (seen ++ part),
        )
        (over seen part t clean miss refl refl fits)
]
scan-IsCut (r ∷ rs) size seen part clean fits ok = elim (Bool-cases (has_ff part)) [
  | inl hit ↦
      rw (drop_front seen part, (find_hit part hit).0)
        (found seen part (r ∷ rs) size clean hit fits ok)
  | inr miss ↦
      let t : Input = record { buf_size = size; buf = seen ++ part; reads = r ∷ rs } in
      let at = next_cp_lem t (length seen + length part) (omega (arith, length-append seen part)) in
      let roomy = lt_room t fits in
      let some_read : empty r ≡ false = not_empty r ok.0.0 in
      let clean' = has_ff-append seen part clean miss in
      let rest =
        scan-IsCut rs (make_room t).buf_size (seen ++ part) r clean'
          (omega (arith, length-append (seen ++ part) r, room t fits, ok.0.1)) ok.1 in
      rw (drop_front seen part, find_miss part miss, ltb_irrefl (length part), at, roomy, some_read)
        (subst
          (λ whole. Returns (IsCut whole) (
            scan rs (make_room t).buf_size (length (seen ++ part)) (length r)
              ((seen ++ part) ++ r)))
          (append_assoc (seen ++ part) r (concat rs)) rest)
]

before_ff_at :
    (p q : Text)
    → has_ff p ≡ false
    → (before_ff (p ++ form_feed ∷ q) ≡ p) × (after_ff (p ++ form_feed ∷ q) ≡ q)
unfolding has_ff before_ff after_ff
before_ff_at [] q h = (refl, refl)
before_ff_at (c ∷ p) q h =
    let (before, after) = before_ff_at p q (ground (arith, h)) in
    (ground (arith, h, before), ground (arith, h, after))

before_ff_none : (p : Text) → has_ff p ≡ false → (before_ff p ≡ p) × (after_ff p ≡ [])
unfolding has_ff before_ff after_ff
before_ff_none [] h = (refl, refl)
before_ff_none (c ∷ p) h =
    let (before, after) = before_ff_none p (ground (arith, h)) in
    (ground (arith, h, before), ground (arith, h, after))

-- The next document and what is behind it.
IsCut-parts :
    (whole : Text) (r : Scan)
    → IsCut whole r
    → (before_ff whole ≡ take r.cp r.input.buf)
      × (after_ff whole
          ≡ drop (r.cp + (if r.jump_ff then 1 else 0)) r.input.buf ++ concat r.input.reads)
IsCut-parts whole r c = go r.jump_ff refl
  where
    go :
        (b : Bool)
        → r.jump_ff ≡ b
        → (before_ff whole ≡ take r.cp r.input.buf)
          × (after_ff whole
              ≡ drop (r.cp + (if r.jump_ff then 1 else 0)) r.input.buf ++ concat r.input.reads)
    go true e =
        let whole_eq : whole
            ≡ take r.cp r.input.buf
              ++ form_feed ∷ (drop (r.cp + 1) r.input.buf ++ concat r.input.reads) =
          rw e at (c.cut) in
        let (before, after) =
          before_ff_at (take r.cp r.input.buf) (drop (r.cp + 1) r.input.buf ++ concat r.input.reads)
            c.first in
        rw (whole_eq, e) (before, after)
    go false e =
        let whole_eq : whole ≡ take r.cp r.input.buf =
          (rw e at (c.cut)) ∙ append-nil (take r.cp r.input.buf) in
        let (before, after) = before_ff_none (take r.cp r.input.buf) c.first in
        let same : r.cp + 0 ≡ r.cp = omega arith in
        rw (whole_eq, e, same) (before, after ∙ sym (c.ended e))

-- Whatever the pieces in which fread delivers the file, nextXmlDoc returns, without a write behind the
-- end of its buffer: the document is parsed from the text up to the next form feed, or to the end of
-- the file, and what is left to be read is exactly what stands behind that form feed.
pub next_xml_doc_lem :
    {Doc : Type 0} (read_memory : Text → Option Doc) (t : Input)
    → IsSound t
    → Returns
        (λ r.
          (r.0 ≡ read_memory (before_ff (content t)))
          × (content r.1 ≡ after_ff (content t))
          × IsSound r.1)
        (next_xml_doc read_memory t)
unfolding next_xml_doc has_ff
next_xml_doc_lem read_memory t ok =
    Returns-bind (IsCut (content t)) _ (scan t.reads t.buf_size 0 (length t.buf) t.buf) _
      (scan-IsCut t.reads t.buf_size [] t.buf refl ok.fits ok.reads)
      λ r c.
        let (before, after) = IsCut-parts (content t) r c in
        (
          ap read_memory (sym before),
          sym after,
          record {
            fits = omega (
              arith,
              c.sound.fits,
              length-drop (r.cp + (if r.jump_ff then 1 else 0)) r.input.buf,
            );
            reads = c.sound.reads;
          },
        )
