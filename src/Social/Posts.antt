-- ===== src/Social/Posts.antt =====
-- The texts of the posts: `_safe_label` and `fit_status` of backend/app/services/social_publishing.py.
use open_city_planner.Base.{
  Bool, List, Text, drop_spaces, filter, is_space, ℕ, ◌∷◌, ◌==◌, nth, take, codes, not,
  if◌then◌else◌, length, max, true, ◌||◌, false, leb, ◌&&◌, [], ◌-◌, ◌++◌,
}

abbrev pub space : ℕ
space = b' '

-- `[@#<>]`
unfoldable pub is_markup : ℕ → Bool
is_markup c = c == b'@' || (c == b'#' || (c == b'<' || c == b'>'))

-- `re.sub(r"\s+", " ", s)`; the flag says that the last character was a space
unfoldable pub collapse_spaces : Bool → Text → Text
unfolding is_space
collapse_spaces after_space [] = []
collapse_spaces after_space (c ∷ s) =
    let inside = collapse_spaces true s in
    let outside = collapse_spaces false s in
    if is_space c then (if after_space then inside else space ∷ inside) else c ∷ outside

unfoldable pub rstrip : Text → Text
unfolding is_space
rstrip [] = []
rstrip (c ∷ s) = let rest = rstrip s in if is_space c && length rest == 0 then [] else c ∷ rest

-- `s or d`
abbrev pub or_text : Text → Text → Text
or_text [] d = d
or_text (c ∷ s) d = c ∷ s

abbrev pub default_label : Text
default_label = codes "Gebiet"

unfoldable pub safe_label : Text → Text
unfolding is_markup collapse_spaces rstrip drop_spaces
safe_label value =
    or_text
      (take 160
        (rstrip (drop_spaces (collapse_spaces false (filter (λ c. not (is_markup c)) value)))))
      default_label

abbrev pub line_feed : ℕ
line_feed = 10

-- `text.split("\n\n")`
unfoldable pub push : ℕ → List Text → List Text
push c [] = (c ∷ []) ∷ []
push c (part ∷ parts) = (c ∷ part) ∷ parts

unfoldable pub split_paragraphs : Text → List Text
unfolding push
split_paragraphs [] = [] ∷ []
split_paragraphs (c ∷ []) = (c ∷ []) ∷ []
split_paragraphs (c ∷ d ∷ s) =
    let rest = split_paragraphs s in
    let longer = push c (split_paragraphs (d ∷ s)) in
    if c == line_feed && d == line_feed then [] ∷ rest else longer

abbrev pub paragraph_break : Text
paragraph_break = line_feed ∷ line_feed ∷ []

-- `f"{parts[0]}\n\n{parts[-2]}\n\n{parts[-1]}"`
unfoldable pub compact : List Text → Text
compact parts =
    nth parts 0 []
    ++ (paragraph_break
        ++ (nth parts (length parts - 2) []
            ++ (paragraph_break ++ nth parts (length parts - 1) [])))

abbrev pub ellipsis : ℕ
ellipsis = 8230

-- `text[: max(1, max_characters - 1)].rstrip() + "…"`
unfoldable pub cut : Text → ℕ → Text
unfolding rstrip
cut text max_characters = rstrip (take (max 1 (max_characters - 1)) text) ++ ellipsis ∷ []

unfoldable pub fit_status : Text → ℕ → Text
unfolding split_paragraphs compact cut
fit_status text max_characters =
    let parts = split_paragraphs text in
    if leb (length text) max_characters
    then text
    else if leb 3 (length parts) && leb (length (compact parts)) max_characters
    then compact parts
    else cut text max_characters
