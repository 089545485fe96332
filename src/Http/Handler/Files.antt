-- ===== src/Http/Handler/Files.antt =====
-- The files that `handle_request` opens itself, for a request that is not one of REST.
use skweltch.Prelude.{
  ℕ, ◌≡◌, ◌≢◌, inl, inr, refl, ap, true, false, not, ◌||◌, Option, some, Option-cases, [], ◌∷◌,
  ◌++◌, Bytes, codes, Bool-cases, arith,
}
use skweltch.Http.Message.{Request}
use skweltch.Http.Reply.{Reply}
use skweltch.Http.Handler.{
  url_decode, has_dots, ends_in_slash, is_absolute, with_index, c_str, is_rest, Handler, send_file,
  answer, handle_request,
}

-- The path of a file below the document root: it is absolute, and does not lead up.
pub record IsInside (path : Bytes) : Type 0 where
  pub absolute : is_absolute path ≡ true
  pub no_dots : has_dots path ≡ false

has_dots-append :
    (path : Bytes) (c : ℕ) (cs : Bytes)
    → c ≢ b'.'
    → has_dots path ≡ false
    → has_dots (c ∷ cs) ≡ false
    → has_dots (path ++ c ∷ cs) ≡ false
unfolding has_dots
has_dots-append [] c cs n h k = k
has_dots-append (a ∷ []) c cs n h k = ground arith
has_dots-append (a ∷ b ∷ path) c cs n h k = ground (arith, has_dots-append (b ∷ path) c cs n)

is_absolute-append :
    (path more : Bytes) → is_absolute path ≡ true → is_absolute (path ++ more) ≡ true
unfolding is_absolute
is_absolute-append [] more h = cc h
is_absolute-append (c ∷ path) more h = h

with_index-IsInside : (path : Bytes) → IsInside path → IsInside (with_index path)
with_index-IsInside path v = elim (Bool-cases (ends_in_slash path)) [
  | inl e ↦ rw e (record {
    absolute = is_absolute-append path (codes "index.html") v.absolute;
    no_dots =
        has_dots-append path b'i' (codes "ndex.html") (λ x. absurd (omega arith)) v.no_dots
          (unfold has_dots in refl);
  })
  | inr e ↦ rw e v
]

module _ {Context : Type 0} (decimal : ℕ → Bytes) (files others : Bytes → Option Bytes)
    (nodes : Handler Context) (load : (Bytes → Option Bytes) → Handler Context) where
  send_file-agree :
      (doc_root path : Bytes) (rep : Reply)
      → files (c_str (doc_root ++ path)) ≡ others (c_str (doc_root ++ path))
      → send_file decimal files nodes load doc_root path rep
        ≡ send_file decimal others nodes load doc_root path rep
  unfolding send_file
  send_file-agree doc_root path rep e = rw (send_file, e) refl

  answer-agree :
      (doc_root path : Bytes) (context : Context) (rep : Reply)
      → is_rest path ≡ false
      → files (c_str (doc_root ++ path)) ≡ others (c_str (doc_root ++ path))
      → answer decimal files nodes load doc_root path context rep
        ≡ answer decimal others nodes load doc_root path context rep
  unfolding answer
  answer-agree doc_root path context rep plain e =
      rw (answer, plain) (ap (λ (x : Reply). (context, x)) (send_file-agree doc_root path rep e))

  -- Two servers whose files are the same below the document root, at absolute paths without `..`,
  -- give the same answer, whatever else their file systems hold, to every request but those for a
  -- path below `/rest/`, whose handlers open files themselves. A path counts up to its first 0.
  pub handle_request-agree :
      (doc_root : Bytes) (req : Request) (context : Context) (rep : Reply)
      → ((path : Bytes) → url_decode req.uri ≡ some path → is_rest (with_index path) ≡ false)
      → ((path : Bytes)
          → IsInside path
          → files (c_str (doc_root ++ path)) ≡ others (c_str (doc_root ++ path)))
      → handle_request decimal files nodes load doc_root req context rep
        ≡ handle_request decimal others nodes load doc_root req context rep
  unfolding handle_request
  handle_request-agree doc_root req context rep plain agree =
      elim (Option-cases (url_decode req.uri)) [
        | inl bad ↦ rw (handle_request, bad) refl
        | inr (path, good) ↦
            rw (handle_request, good)
              (elim (Bool-cases (not (is_absolute path) || has_dots path)) [
                | inl refused ↦ rw refused refl
                | inr passed ↦ rw passed (
                    answer-agree doc_root (with_index path) context rep (plain path good) (
                      agree (with_index path) (
                        with_index-IsInside path
                          (record { absolute = ground arith; no_dots = ground arith }))))
              ])
      ]
