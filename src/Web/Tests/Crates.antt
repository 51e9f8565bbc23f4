-- ===== src/Web/Tests/Crates.antt =====
-- Concrete functions in place of the crates, which satisfy what is assumed of them.
use starlingmonkey_ng.Prelude.{
  ℕ, zero, suc, ◌+◌, ◌<◌, ◌≡◌, refl, sym, ◌∙◌, ap, true, false, Option, none, some, List, [], ◌∷◌,
  ◌++◌, if◌then◌else◌, ◌==◌, arith,
}
use starlingmonkey_ng.Web.Text.{Text, utf8, utf8_char}
use starlingmonkey_ng.Web.Params.{Pairs}
use starlingmonkey_ng.Web.Url.{
  UrlCrate, urlencoded_parse, urlencoded_serialize, append_pairs, without_question_mark, is_empty,
}
use starlingmonkey_ng.Web.Url.Methods.{text_or_empty}
use starlingmonkey_ng.Web.Url.Sync.{IsUrlCrate}
use mathlib.Core.List.{append-nil, append_assoc}

-- A character as that many `a` and a `b`; `c` ends a name and `d` a value.
tally : ℕ → List ℕ → List ℕ
tally zero rest = b'b' ∷ rest
tally (suc n) rest = b'a' ∷ tally n rest

write_text : Text → List ℕ → List ℕ
unfolding tally
write_text [] rest = rest
write_text (c ∷ s) rest = tally c (write_text s rest)

unfoldable pub write_pairs : Pairs → List ℕ
unfolding write_text
write_pairs [] = []
write_pairs ((name, value) ∷ list) =
    write_text name (b'c' ∷ write_text value (b'd' ∷ write_pairs list))

unfoldable pub read_pairs : List ℕ → ℕ → Text → Text → Pairs
read_pairs [] n seen name = []
read_pairs (b ∷ rest) n seen name = elim (b == b'a') [
  | true ↦ read_pairs rest (n + 1) seen name
  | false ↦ elim (b == b'b') [
    | true ↦ read_pairs rest 0 (seen ++ n ∷ []) name
    | false ↦ elim (b == b'c') [
      | true ↦ read_pairs rest 0 [] seen
      | false ↦ (name, seen) ∷ read_pairs rest 0 [] []
    ]
  ]
]

read-tally :
    (c n : ℕ) (rest seen name : List ℕ)
    → read_pairs (tally c rest) n seen name ≡ read_pairs rest 0 (seen ++ (n + c) ∷ []) name
unfolding read_pairs tally
read-tally zero n rest seen name = rw (let e : n + 0 ≡ n = omega arith in e)
read-tally (suc c) n rest seen name =
    read-tally c (n + 1) rest seen name
    ∙ ap (λ (k : ℕ). read_pairs rest 0 (seen ++ k ∷ []) name) (omega arith)

read-write_text :
    (s rest seen name : List ℕ)
    → read_pairs (write_text s rest) 0 seen name ≡ read_pairs rest 0 (seen ++ s) name
unfolding write_text
read-write_text [] rest seen name = rw append-nil
read-write_text (c ∷ s) rest seen name =
    read-tally c 0 (write_text s rest) seen name
    ∙ read-write_text s rest (seen ++ (0 + c) ∷ []) name
    ∙ ap (λ (t : List ℕ). read_pairs rest 0 t name)
        (append_assoc seen ((0 + c) ∷ []) s ∙ ap (λ (k : ℕ). seen ++ k ∷ s) (omega arith))

-- The two separators.
read_name_end :
    (n : ℕ) (rest seen name : List ℕ)
    → read_pairs (b'c' ∷ rest) n seen name ≡ read_pairs rest 0 [] seen
unfolding read_pairs
read_name_end n rest seen name = refl

read_value_end :
    (n : ℕ) (rest seen name : List ℕ)
    → read_pairs (b'd' ∷ rest) n seen name ≡ (name, seen) ∷ read_pairs rest 0 [] []
unfolding read_pairs
read_value_end n rest seen name = refl

read-write_pairs : (list : Pairs) → read_pairs (write_pairs list) 0 [] [] ≡ list
unfolding write_pairs
read-write_pairs [] = unfold read_pairs in refl
read-write_pairs ((name, value) ∷ list) =
    read-write_text name _ [] []
    ∙ read_name_end 0 _ name []
    ∙ read-write_text value _ [] name
    ∙ read_value_end 0 (write_pairs list) value name
    ∙ ap (λ (l : Pairs). (name, value) ∷ l) (read-write_pairs list)

utf8_char-ascii : (c : ℕ) (rest : List ℕ) → c < 128 → utf8 rest ≡ rest → utf8 (c ∷ rest) ≡ c ∷ rest
unfolding utf8 utf8_char
utf8_char-ascii c rest h e = ground arith

tally-utf8 : (c : ℕ) (rest : List ℕ) → utf8 rest ≡ rest → utf8 (tally c rest) ≡ tally c rest
unfolding tally
tally-utf8 zero rest h = utf8_char-ascii b'b' rest (omega arith) h
tally-utf8 (suc c) rest h = utf8_char-ascii b'a' _ (omega arith) (tally-utf8 c rest h)

write_text-utf8 :
    (s rest : List ℕ) → utf8 rest ≡ rest → utf8 (write_text s rest) ≡ write_text s rest
unfolding write_text
write_text-utf8 [] rest h = h
write_text-utf8 (c ∷ s) rest h = tally-utf8 c _ (write_text-utf8 s rest h)

write_pairs-utf8 : (list : Pairs) → utf8 (write_pairs list) ≡ write_pairs list
unfolding write_pairs
write_pairs-utf8 [] = unfold utf8 in refl
write_pairs-utf8 ((name, value) ∷ list) = write_text-utf8 name _ (
    utf8_char-ascii b'c' _ (omega arith)
      (write_text-utf8 value _ (utf8_char-ascii b'd' _ (omega arith) (write_pairs-utf8 list))))

-- A URL that is only its query.
abbrev pub only_query : UrlCrate
only_query = record {
  Url = Option Text;
  parse = λ t. if is_empty t then none else some (some t);
  join = λ base t. some (some t);
  as_str = text_or_empty;
  query = λ url. url;
  set_query = λ url query. query;
  path = λ url. [];
  set_path = λ url v. url;
  cannot_be_a_base = λ url. false;
  host_str = λ url. none;
  ascii_origin = λ url. [];
  username = λ url. [];
  protocol = λ url. [];
  password = λ url. [];
  host = λ url. [];
  hostname = λ url. [];
  port = λ url. [];
  search = λ url. [];
  hash = λ url. [];
  set_protocol = λ url v. url;
  set_username = λ url v. url;
  set_password = λ url v. url;
  set_host = λ url v. url;
  set_hostname = λ url v. url;
  set_port = λ url v. url;
  set_pathname = λ url v. url;
  set_hash = λ url v. url;
  set_search = λ url v. if is_empty v then none else some (without_question_mark v);
  form_parse = λ bytes. read_pairs bytes 0 [] [];
  Serializer = Pairs;
  new_serializer = [];
  append_pair = λ list name value. list ++ (name, value) ∷ [];
  finish = write_pairs;
}

append_pairs-append : (acc list : Pairs) → append_pairs only_query acc list ≡ acc ++ list
unfolding append_pairs
append_pairs-append acc [] = sym (append-nil acc)
append_pairs-append acc ((name, value) ∷ list) =
    append_pairs-append (acc ++ (name, value) ∷ []) list
    ∙ append_assoc acc ((name, value) ∷ []) list

parse-set_search :
    (value : Text)
    → read_pairs
        (utf8 (text_or_empty (if is_empty value then none else some (without_question_mark value))))
        0
        []
        []
      ≡ read_pairs (utf8 (without_question_mark value)) 0 [] []
parse-set_search [] = refl
parse-set_search (c ∷ value) = refl

pub only_query-IsUrlCrate : IsUrlCrate only_query
unfolding urlencoded_parse urlencoded_serialize
only_query-IsUrlCrate = record {
  parse_nothing = unfold read_pairs utf8 in refl;
  parse-serialize =
      λ list. rw (append_pairs-append [] list, write_pairs-utf8 list) (read-write_pairs list);
  query-set_query_none = λ url. refl;
  query-set_query = λ url list. refl;
  parse-set_search = λ url value h. parse-set_search value;
  query-set_protocol = λ url v. refl;
  query-set_username = λ url v. refl;
  query-set_password = λ url v. refl;
  query-set_host = λ url v. refl;
  query-set_hostname = λ url v. refl;
  query-set_port = λ url v. refl;
  query-set_pathname = λ url v. refl;
  query-set_hash = λ url v. refl;
}
