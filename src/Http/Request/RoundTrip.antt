-- ===== src/Http/Request/RoundTrip.antt =====
-- A printed request is read again by `HttpRequest::parse` of src/http/request.rs.
use Prim.Native.Char.{Char, code}
use Prim.Native.String.{◌++◌ as append}
use mathlib.Core.List.{append_assoc}
use text.Mathlib.TextLemmas.{nil-append, cons-append}
use distributed_processing_e.Base.{
  ℕ, not, ◌&&◌, arith, ◌≡◌, refl, sym, ap, ◌∙◌, Bool, true, false, String, some, List, [], ◌∷◌,
  ◌++◌, eqb, map, All, Bool-cases, inl, inr,
}
use distributed_processing_e.Base.Eq.{string_eq}
use distributed_processing_e.Base.Map.{HashMap, insert}
use distributed_processing_e.Base.Text.{
  is_whitespace, is_empty_text, split, onto_head, ended_lines, drop_return, lines, nonempty_pieces,
  split_whitespace, split_once, before_split, trim, trim_start,
}
use distributed_processing_e.Http.Request.{
  add_header, parse_headers, join_lines, body_of, with_start, parse_lines, parse,
}

-- No character of a text passes the test.
abbrev pub Without : (ℕ → Bool) → String → Type 0
Without p String.[] = Unit
Without p (String.◌∷◌ c s) = (p (code c) ≡ false) × Without p s

abbrev pub lacks : (ℕ → Bool) → String → Bool
lacks p String.[] = true
lacks p (String.◌∷◌ c s) = not (p (code c)) && lacks p s

pub lacks-Without : (p : ℕ → Bool) (s : String) → lacks p s ≡ true → Without p s
lacks-Without p String.[] h = tt
lacks-Without p (String.◌∷◌ c s) h = ground (arith, lacks-Without p s)

split-append :
    (p : ℕ → Bool) (a : String) (c : Char) (rest : String)
    → Without p a
    → p (code c) ≡ true
    → split p (append a (String.◌∷◌ c rest)) ≡ a ∷ split p rest
unfolding split
split-append p String.[] c rest h sep = ap (split p) (nil-append (String.◌∷◌ c rest)) ∙ rw sep refl
split-append p (String.◌∷◌ d a) c rest h sep =
    ap (split p) (cons-append d a (String.◌∷◌ c rest))
    ∙ rw h.0 (ap (onto_head d) (split-append p a c rest h.1 sep))

split-Without : (p : ℕ → Bool) (a : String) → Without p a → split p a ≡ a ∷ []
unfolding split
split-Without p String.[] h = refl
split-Without p (String.◌∷◌ d a) h = rw h.0 (ap (onto_head d) (split-Without p a h.1))

split-cons : (p : ℕ → Bool) (s : String) → (u : String) × (us : List String) × (split p s ≡ u ∷ us)
unfolding split
split-cons p String.[] = ("", [], refl)
split-cons p (String.◌∷◌ c s) =
    let (u, us, parts) = split-cons p s in
    elim (Bool-cases (p (code c))) [
      | inl sep ↦ ("", split p s, rw sep refl)
      | inr other ↦ (String.◌∷◌ c u, us, rw other (ap (onto_head c) parts))
    ]

-- A line: it holds no newline and does not end with a carriage return.
abbrev pub IsLine : String → Type 0
IsLine t = Without (λ c. eqb c 10) t × (drop_return t ≡ t)

lines-append :
    (t rest : String) → IsLine t → lines (append t (String.◌∷◌ "\n" rest)) ≡ t ∷ lines rest
unfolding lines
lines-append t rest h =
    let (u, us, parts) = split-cons (λ c. eqb c 10) rest in
    ap ended_lines (split-append (λ c. eqb c 10) t "\n" rest h.0 refl ∙ ap (λ us. t ∷ us) parts)
    ∙ ap (λ s. s ∷ ended_lines (u ∷ us)) h.1
    ∙ ap (λ ts. t ∷ ended_lines ts) (sym parts)

newline-append : (s : String) → append "\n" s ≡ String.◌∷◌ "\n" s
newline-append s = cons-append "\n" "" s ∙ ap (λ r. String.◌∷◌ "\n" r) (nil-append s)

-- Lines, each with its newline, and what follows them.
abbrev pub printed : List String → String → String
printed [] rest = rest
printed (t ∷ ts) rest = append t (String.◌∷◌ "\n" (printed ts rest))

lines-printed :
    (ts : List String) (rest : String) → All IsLine ts → lines (printed ts rest) ≡ ts ++ lines rest
lines-printed [] rest h = refl
lines-printed (t ∷ ts) rest h =
    lines-append t (printed ts rest) h.0 ∙ ap (λ us. t ∷ us) (lines-printed ts rest h.1)

-- The lines of a body: the last one is not empty.
abbrev pub IsBody : List String → Type 0
IsBody [] = Unit
IsBody (t ∷ []) = IsLine t × (is_empty_text t ≡ false)
IsBody (t ∷ u ∷ ts) = IsLine t × IsBody (u ∷ ts)

lines-join_lines : (ts : List String) → IsBody ts → lines (join_lines ts) ≡ ts
unfolding lines join_lines split
lines-join_lines [] h = refl
lines-join_lines (t ∷ []) h = ap ended_lines (split-Without (λ c. eqb c 10) t h.0.0) ∙ rw h.1 refl
lines-join_lines (t ∷ u ∷ ts) h =
    ap (λ s. lines (append t s)) (newline-append (join_lines (u ∷ ts)))
    ∙ lines-append t (join_lines (u ∷ ts)) h.0
    ∙ ap (λ us. t ∷ us) (lines-join_lines (u ∷ ts) h.1)

-- A word: not empty, and without white space.
abbrev pub IsWord : String → Type 0
IsWord s = Without is_whitespace s × (is_empty_text s ≡ false)

abbrev pub start_line : String → String → String → String
start_line method path version =
    append method (String.◌∷◌ " " (append path (String.◌∷◌ " " version)))

split_whitespace-start_line :
    (m p v : String)
    → IsWord m
    → IsWord p
    → IsWord v
    → split_whitespace (start_line m p v) ≡ m ∷ p ∷ v ∷ []
unfolding split_whitespace
split_whitespace-start_line m p v hm hp hv =
    ap nonempty_pieces (
      split-append is_whitespace m " " (append p (String.◌∷◌ " " v)) hm.0 refl
      ∙ ap (λ ts. m ∷ ts)
          (split-append is_whitespace p " " v hp.0 refl
            ∙ ap (λ ts. p ∷ ts) (split-Without is_whitespace v hv.0)))
    ∙ rw (hm.1, hp.1, hv.1) refl

abbrev pub header_line : String × String → String
header_line (key, val) = append key (String.◌∷◌ ":" (String.◌∷◌ " " val))

-- A header: its key has no colon, neither key nor value has white space at its ends, and it fits on
-- one line.
abbrev pub IsHeader : String × String → Type 0
IsHeader h =
    Without (λ c. eqb c b':') h.0 × (trim h.0 ≡ h.0) × (trim h.1 ≡ h.1) × IsLine (header_line h)

split_once-append :
    (a : String) (c : Char) (rest : String) (sep : ℕ)
    → Without (λ d. eqb d sep) a
    → eqb (code c) sep ≡ true
    → split_once sep (append a (String.◌∷◌ c rest)) ≡ some (a, rest)
unfolding split_once
split_once-append String.[] c rest sep h here =
    ap (split_once sep) (nil-append (String.◌∷◌ c rest)) ∙ rw here refl
split_once-append (String.◌∷◌ d a) c rest sep h here =
    ap (split_once sep) (cons-append d a (String.◌∷◌ c rest))
    ∙ rw h.0 (ap (before_split d) (split_once-append a c rest sep h.1 here))

trim-space : (s : String) → trim (String.◌∷◌ " " s) ≡ trim s
unfolding trim trim_start
trim-space s = refl

append-nonempty :
    (a : String) (c : Char) (rest : String) → is_empty_text (append a (String.◌∷◌ c rest)) ≡ false
append-nonempty String.[] c rest = ap is_empty_text (nil-append (String.◌∷◌ c rest))
append-nonempty (String.◌∷◌ d a) c rest = ap is_empty_text (cons-append d a (String.◌∷◌ c rest))

add_header-header_line :
    (h : String × String) (headers : HashMap String String)
    → IsHeader h
    → add_header (split_once b':' (header_line h)) headers ≡ insert headers h.0 h.1
add_header-header_line (key, val) headers ok =
    ap (λ o. add_header o headers) (split_once-append key ":" (String.◌∷◌ " " val) b':' ok.0 refl)
    ∙ ap (λ k. insert headers k (trim (String.◌∷◌ " " val))) ok.1
    ∙ ap (insert headers key) (trim-space val ∙ ok.2)

abbrev pub insert_all : List (String × String) → HashMap String String → HashMap String String
insert_all [] headers = headers
insert_all ((key, val) ∷ hs) headers = insert_all hs (insert headers key val)

parse_headers-header_line :
    (hs : List (String × String)) (headers : HashMap String String) (rest : List String)
    → All IsHeader hs
    → parse_headers (map header_line hs ++ "" ∷ rest) headers ≡ (insert_all hs headers, rest)
unfolding parse_headers
parse_headers-header_line [] headers rest ok = refl
parse_headers-header_line ((key, val) ∷ hs) headers rest ok =
    rw (append-nonempty key ":" (String.◌∷◌ " " val)) (
      ap (parse_headers (map header_line hs ++ "" ∷ rest))
        (add_header-header_line (key, val) headers ok.0)
      ∙ parse_headers-header_line hs (insert headers key val) rest ok.1)

abbrev pub print : String → String → String → List (String × String) → List String → String
print method path version hs body =
    printed (start_line method path version ∷ map header_line hs ++ "" ∷ []) (join_lines body)

header_lines :
    (hs : List (String × String)) → All IsHeader hs → All IsLine (map header_line hs ++ "" ∷ [])
header_lines [] ok = ((tt, refl), tt)
header_lines (h ∷ hs) ok = (ok.0.3, header_lines hs ok.1)

-- A request whose method, path and version are words, whose headers are trimmed and fit on a line
-- each, and whose body's last line is not empty, is read again as it was printed: every header that no
-- later one overwrites, and the body with its lines, or no body where there is none.
pub parse-print :
    (method path version : String) (hs : List (String × String)) (body : List String)
    → IsWord method
    → IsWord path
    → IsWord version
    → IsLine (start_line method path version)
    → All IsHeader hs
    → IsBody body
    → parse (print method path version hs body)
      ≡ some (record {
        method = method;
        path = path;
        version = version;
        headers = insert_all hs [];
        body = body_of body;
      })
unfolding parse
parse-print method path version hs body hm hp hv hl ok hb =
    ap parse_lines (
      lines-printed (start_line method path version ∷ map header_line hs ++ "" ∷ [])
        (join_lines body) (hl, header_lines hs ok)
      ∙ ap (λ bs. start_line method path version ∷ (map header_line hs ++ "" ∷ []) ++ bs)
          (lines-join_lines body hb)
      ∙ ap (λ ts. start_line method path version ∷ ts)
          (append_assoc (map header_line hs) ("" ∷ []) body))
    ∙ ap (λ ws. with_start ws (map header_line hs ++ "" ∷ body))
        (split_whitespace-start_line method path version hm hp hv)
    ∙ ap
        (λ (t : HashMap String String × List String). some (record {
          method = method;
          path = path;
          version = version;
          headers = t.0;
          body = body_of t.1;
        }))
        (parse_headers-header_line hs [] body ok)
