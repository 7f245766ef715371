-- ===== src/Mydb/Protocol/Path.antt =====
-- The name of a protocol, from the path of its file.
use mathlib.Core.List.{append_assoc}
use donkeyji.Prelude.{
  ℕ, ◌+◌, ◌-◌, ◌^◌, ◌≤◌, ◌<◌, ◌≡◌, refl, ◌∙◌, ap, true, false, Option, none, some, List, [], ◌∷◌,
  ◌++◌, arith, leb, ◌==◌, if◌then◌else◌, length, take-append, drop-append, length-append, same_text,
}
use donkeyji.Mydb.Protocol.{NetProtocol}
use donkeyji.Mydb.Protocol.Names.{
  npos, last_from, find_last_of, substr, client, server, client_prefix, server_prefix, process_type,
}

-- the byte is not in the text
abbrev pub Lacks : ℕ → List ℕ → Type 0
Lacks c [] = Unit {0}
Lacks c (x ∷ xs) = ((x == c) ≡ false) × Lacks c xs

last_from-Lacks : (c : ℕ) (xs : List ℕ) (i found : ℕ) → Lacks c xs → last_from c xs i found ≡ found
last_from-Lacks c [] i found h = refl
last_from-Lacks c (x ∷ xs) i found h = rw h.0 (last_from-Lacks c xs (i + 1) found h.1)

last_from-last :
    (c : ℕ) (xs ys : List ℕ) (i found : ℕ)
    → Lacks c ys
    → last_from c (xs ++ (c ∷ ys)) i found ≡ i + length xs
last_from-last c [] ys i found h =
    let picked : (if c == c then i else found) ≡ i = ground arith in
    ap (last_from c ys (i + 1)) picked ∙ (last_from-Lacks c ys (i + 1) i h ∙ omega arith)
last_from-last c (x ∷ xs) ys i found h =
    last_from-last c xs ys (i + 1) (if x == c then i else found) h ∙ omega arith

Lacks-append : (c : ℕ) (xs ys : List ℕ) → Lacks c xs → Lacks c ys → Lacks c (xs ++ ys)
Lacks-append c [] ys h g = g
Lacks-append c (x ∷ xs) ys h g = (h.0, Lacks-append c xs ys h.1 g)

-- the last `/` and the last `.` of `dir/name.ext`
abbrev pub path_of : (dir name ext : List ℕ) → List ℕ
path_of dir name ext = dir ++ (47 ∷ (name ++ (46 ∷ ext)))

module _ (dir name ext : List ℕ) (no_slash : Lacks 47 name) (plain : Lacks 47 ext)
    (no_dot : Lacks 46 ext) where
  path-slash : find_last_of 47 (path_of dir name ext) ≡ length dir
  path-slash =
      last_from-last 47 dir (name ++ (46 ∷ ext)) 0 npos
        (Lacks-append 47 name (46 ∷ ext) no_slash (refl, plain))
      ∙ omega arith

  path-dot : find_last_of 46 (path_of dir name ext) ≡ length dir + 1 + length name
  path-dot = rw (← append_assoc dir (47 ∷ name) (46 ∷ ext)) (
      last_from-last 46 (dir ++ (47 ∷ name)) ext 0 npos no_dot
      ∙ omega (arith, length-append dir (47 ∷ name)))

  path-name :
      substr
        (path_of dir name ext)
        (length dir + 1)
        (length dir + 1 + length name - (length dir + 1))
      ≡ name
  path-name =
      let size : length dir + 1 + length name - (length dir + 1) ≡ length name = omega arith in
      let from : length dir + 1 ≡ length (dir ++ (47 ∷ [])) =
        omega (arith, length-append dir (47 ∷ [])) in
      rw
        (
          size,
          from,
          ← append_assoc dir (47 ∷ []) (name ++ (46 ∷ ext)),
          drop-append (dir ++ (47 ∷ [])) (name ++ (46 ∷ ext)),
        )
        (take-append name (46 ∷ ext))

  -- what a name that starts with `c_` or `s_` says of the two sides
  abbrev typed : (cur_char : List ℕ) → NetProtocol → Option NetProtocol
  typed cur_char p =
      if same_text (substr name 0 2) client_prefix
      then some (record p { pack_func_name = name; is_maker = same_text cur_char client })
      else if same_text (substr name 0 2) server_prefix
      then some (record p { pack_func_name = name; is_maker = same_text cur_char server })
      else none

  -- The name of a protocol is that of its file `dir/name.ext`, for a name and an extension with no
  -- slash and an extension with no dot; the protocol is implemented here if the name starts with `c_`
  -- in a client, and with `s_` in a server; any other name is an error
  pub process_type-path_of :
      (cur_char : List ℕ) (p : NetProtocol)
      → process_type cur_char (path_of dir name ext) p ≡ typed cur_char p
  unfolding process_type
  process_type-path_of cur_char p =
      let some_name : leb (length dir + 1 + length name) (length dir) ≡ false = ground arith in
      rw (process_type, path-slash, path-dot, some_name, path-name) refl

last_from-bound :
    (c : ℕ) (xs : List ℕ) (i found n : ℕ)
    → i + length xs ≤ n
    → found ≤ n
    → last_from c xs i found ≤ n
last_from-bound c [] i found n h g = g
last_from-bound c (x ∷ xs) i found n h g =
    last_from-bound c xs (i + 1) (if x == c then i else found) n (omega arith) (ground arith)

-- A path with no slash is an error
pub process_type-no_slash :
    (cur_char path : List ℕ) (p : NetProtocol)
    → Lacks 47 path
    → length path < 2 ^ 64
    → process_type cur_char path p ≡ none
unfolding process_type
process_type-no_slash cur_char path p h small =
    let none_found = last_from-Lacks 47 path 0 npos h in
    let bound : leb (find_last_of 46 path) npos ≡ true =
      ground (arith, last_from-bound 46 path 0 npos npos (omega arith) (omega arith)) in
    rw (process_type, none_found, bound) refl
