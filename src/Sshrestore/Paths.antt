-- ===== src/Sshrestore/Paths.antt =====
-- What internal/sshrestore/sshrestore.go uses of Go's package `path`.
use dokploymigrator.Base.{
  Text, codes, List, [], ◌∷◌, ◌++◌, Option, none, some, Bool, false, ◌||◌, ◌==◌, nat_eq, text_eq,
  if◌then◌else◌, split, trim_right,
}

-- What stands behind the last slash, if there is one.
after_slash : Text → Option Text
after_slash [] = none
after_slash (c ∷ s) = elim (after_slash s) [
  | some t ↦ some t
  | none ↦ if c == b'/' then some s else none
]

abbrev or_whole : Text → Option Text → Text
or_whole s none = s
or_whole s (some t) = t

abbrev or_slash : Text → Text
or_slash [] = codes "/"
or_slash (c ∷ s) = c ∷ s

-- `path.Base`
unfoldable pub path_base : Text → Text
unfolding trim_right after_slash
path_base path =
    if path == []
    then codes "."
    else let stripped = trim_right path b'/' in or_slash (or_whole stripped (after_slash stripped))

-- What stands up to the last slash, with it.
up_to_slash : Text → Text
up_to_slash [] = []
up_to_slash (c ∷ s) =
    let rest = up_to_slash s in if rest == [] then (if c == b'/' then c ∷ [] else []) else c ∷ rest

-- The elements of a path so far, the last one first.
go_up : Bool → List Text → List Text
go_up rooted [] = if rooted then [] else codes ".." ∷ []
go_up rooted (last ∷ stack) = if last == codes ".." then codes ".." ∷ last ∷ stack else stack

clean_elements : Bool → List Text → List Text → List Text
unfolding go_up
clean_elements rooted stack [] = stack
clean_elements rooted stack (element ∷ elements) =
    clean_elements rooted
      (if element == [] || element == codes "."
        then stack
        else if element == codes ".."
        then go_up rooted stack
        else element ∷ stack)
      elements

-- The elements of a stack in their order, with slashes between them.
join_slash : List Text → Text → Text
join_slash [] joined = joined
join_slash (last ∷ stack) [] = join_slash stack last
join_slash (last ∷ stack) (c ∷ joined) = join_slash stack (last ++ b'/' ∷ c ∷ joined)

abbrev is_rooted : Text → Bool
is_rooted [] = false
is_rooted (c ∷ s) = c == b'/'

abbrev or_dot : Text → Text
or_dot [] = codes "."
or_dot (c ∷ s) = c ∷ s

-- `path.Clean`
unfoldable pub path_clean : Text → Text
unfolding split clean_elements join_slash
path_clean path =
    let rooted = is_rooted path in
    let joined = join_slash (clean_elements rooted [] (split path b'/')) [] in
    if rooted then b'/' ∷ joined else or_dot joined

-- `path.Dir`
unfoldable pub path_dir : Text → Text
unfolding path_clean up_to_slash
path_dir path = path_clean (up_to_slash path)
