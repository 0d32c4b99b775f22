-- ===== src/Receiver/Paths.antt =====
-- The output path of ProcessChunk (pkg/receiver/file_receiver.go): filepath.Base, Join and Clean on
-- paths with "/", and the prefix check.
use mathlib.Core.List.{reverse}
use lan_file_share.Common.{
  ℕ, Bool, false, not, ◌&&◌, ◌||◌, Option, none, some, List, [], ◌∷◌, ◌++◌, ◌==◌, nat_eq,
  if◌then◌else◌,
}
use lan_file_share.Common.Text.{codes, starts_with, text_eq}

abbrev pub slash : ℕ
slash = b'/'

-- The elements between the slashes, the empty ones too.
split_on : List ℕ → List ℕ → List (List ℕ)
split_on word [] = reverse word ∷ []
split_on word (c ∷ s) =
    let ended = reverse word ∷ split_on [] s in
    let going = split_on (c ∷ word) s in if c == slash then ended else going

unfoldable pub elements : List ℕ → List (List ℕ)
unfolding split_on
elements s = split_on [] s

abbrev is_rooted : List ℕ → Bool
is_rooted [] = false
is_rooted (c ∷ s) = c == slash

-- The elements that filepath.Clean keeps, last first: it drops "" and ".", and lets ".." take off
-- the element before it, except at the start of a path that is not rooted.
push_element : Bool → List ℕ → List (List ℕ) → List (List ℕ)
push_element rooted e [] =
    if e == [] || e == codes "." then [] else if e == codes ".." && rooted then [] else e ∷ []
push_element rooted e (top ∷ kept) =
    if e == [] || e == codes "."
    then top ∷ kept
    else if e == codes ".." && not (top == codes "..")
    then kept
    else e ∷ top ∷ kept

clean_elements : Bool → List (List ℕ) → List (List ℕ) → List (List ℕ)
unfolding push_element
clean_elements rooted kept [] = kept
clean_elements rooted kept (e ∷ es) = clean_elements rooted (push_element rooted e kept) es

join_elements : List (List ℕ) → List ℕ
join_elements [] = []
join_elements (e ∷ []) = e
join_elements (e ∷ f ∷ es) = e ++ (slash ∷ join_elements (f ∷ es))

-- filepath.Clean
unfoldable pub clean : List ℕ → List ℕ
unfolding elements clean_elements join_elements
clean path =
    let kept = reverse (clean_elements (is_rooted path) [] (elements path)) in
    let joined = join_elements kept in
    if is_rooted path then slash ∷ joined else if joined == [] then codes "." else joined

-- filepath.Join of two elements: the empty ones are left out.
unfoldable pub join_path : List ℕ → List ℕ → List ℕ
unfolding clean
join_path dir name =
    if dir == []
    then (if name == [] then [] else clean name)
    else if name == []
    then clean dir
    else clean (dir ++ (slash ∷ name))

last_nonempty : List ℕ → List (List ℕ) → List ℕ
last_nonempty found [] = found
last_nonempty found (e ∷ es) = last_nonempty (if e == [] then found else e) es

-- filepath.Base: the last element that is not empty; "." for the empty path, "/" for slashes only.
unfoldable pub base : List ℕ → List ℕ
unfolding elements last_nonempty
base path =
    if path == []
    then codes "."
    else (let found = last_nonempty [] (elements path) in if found == [] then codes "/" else found)

-- The path for a file name, or `none` where ProcessChunk refuses it.
unfoldable pub output_path : List ℕ → List ℕ → Option (List ℕ)
unfolding base join_path starts_with
output_path dir name =
    let path = join_path dir (base name) in if starts_with path (clean dir) then some path else none
