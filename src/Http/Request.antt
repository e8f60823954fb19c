-- ===== src/Http/Request.antt =====
-- The reader of raw requests: src/http/request.rs.
pub mod RoundTrip
use Prim.Native.String.{◌++◌ as append}
use distributed_processing_e.Base.{String, Option, none, some, List, [], ◌∷◌, if◌then◌else◌}
use distributed_processing_e.Base.Eq.{string_eq}
use distributed_processing_e.Base.Map.{HashMap, insert}
use distributed_processing_e.Base.Text.{is_empty_text, trim, split_once, split_whitespace, lines}

pub record HttpRequest : Type 0 where
  pub method : String
  pub path : String
  pub version : String
  pub headers : HashMap String String
  pub body : Option String

-- A line with no colon is passed over.
abbrev pub add_header : Option (String × String) → HashMap String String → HashMap String String
add_header none headers = headers
add_header (some (key, val)) headers = insert headers (trim key) (trim val)

-- Up to the first empty line: the headers, and the lines that are left.
unfoldable pub parse_headers :
    List String → HashMap String String → HashMap String String × List String
unfolding insert trim split_once
parse_headers [] headers = (headers, [])
parse_headers (line ∷ rest) headers =
    let more = parse_headers rest (add_header (split_once b':' line) headers) in
    if is_empty_text line then (headers, rest) else more

-- `join("\n")`
unfoldable pub join_lines : List String → String
join_lines [] = ""
join_lines (t ∷ []) = t
join_lines (t ∷ u ∷ ts) = append t (append "\n" (join_lines (u ∷ ts)))

abbrev pub body_of : List String → Option String
body_of rest = let body = join_lines rest in if is_empty_text body then none else some body

abbrev pub with_start : List String → List String → Option HttpRequest
with_start (method ∷ path ∷ version ∷ words) rest =
    let (headers, left) = parse_headers rest [] in
    some (record {
      method = method;
      path = path;
      version = version;
      headers = headers;
      body = body_of left;
    })
with_start _ rest = none

abbrev pub parse_lines : List String → Option HttpRequest
parse_lines [] = none
parse_lines (start ∷ rest) = with_start (split_whitespace start) rest

unfoldable pub parse : String → Option HttpRequest
unfolding lines parse_headers join_lines split_whitespace
parse raw = parse_lines (lines raw)
