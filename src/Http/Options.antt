-- ===== src/Http/Options.antt =====
-- The options for urls of HttpServerLib/HttpServer.cpp: `m_mapUrlOptions` with `AddUrlOption` and
-- `FindUrlOption`. The map is the list of its elements in the order of their keys, and the key of
-- an element is its `url`. `World` is what a handler may read and change besides the response.
pub mod Order
pub mod Calls
pub mod Deepest
pub mod Longest
use lib_abk.Common.{
  ℕ, Bool, true, false, [], ◌∷◌, ◌++◌, ◌==◌, List, Bytes, codes, Option, none, some, if◌then◌else◌,
  equal, Ordering, lt, eq, gt,
}
use lib_abk.Server.Dispatch.{strcmp}
use lib_abk.Http.Text.{starts}

-- `REQUEST`.
pub record HttpRequest : Type 0 where
  pub method : Bytes
  pub url : Bytes
  pub query : Bytes
  pub client_addr : Bytes
  pub str_data : Bytes

-- `RESPONSE`.
pub record HttpResponse : Type 0 where
  pub extra_headers : Bytes
  pub vect_data : Bytes
  pub keep_alive : Bool
  pub status_code : ℕ

-- `PFN_HANDLER`, with the object pointer, the local directory and the flags.
abbrev pub UserHandler : Type 0 → Type 0
UserHandler World = ℕ → HttpRequest → HttpResponse → Bytes → ℕ → World → HttpResponse × World

-- `URLOPTIONS`.
pub record UrlOptions (World : Type 0) : Type 0 where
  pub url : Bytes
  pub object : ℕ
  pub handler : Option (UserHandler World)
  pub local_dir : Bytes
  pub default_file : Bytes
  pub flags : ℕ

abbrev pub UrlOptionsMap : Type 0 → Type 0
UrlOptionsMap World = List (UrlOptions World)

-- The text with a delimiter at its end.
abbrev pub with_delimiter : ℕ → Bytes → Bytes
with_delimiter d [] = d ∷ []
with_delimiter d (c ∷ []) = if c == d then c ∷ [] else c ∷ d ∷ []
with_delimiter d (c ∷ e ∷ s) = c ∷ with_delimiter d (e ∷ s)

-- The local directory gets its delimiter only if there is one.
abbrev pub local_directory : Bytes → Bytes
local_directory [] = []
local_directory (c ∷ s) = with_delimiter b'\\' (c ∷ s)

abbrev pub text_or : Bytes → Option Bytes → Bytes
text_or other none = other
text_or other (some s) = s

module _ {World : Type 0} where
  -- `erase` of the element with a key, where there is one.
  abbrev pub erase_url : Bytes → UrlOptionsMap World → UrlOptionsMap World
  erase_url url [] = []
  erase_url url (o ∷ m) = let rest = erase_url url m in if equal o.url url then m else o ∷ rest

  -- `std::map::insert`, which leaves an element with the same key alone.
  abbrev pub insert_option : UrlOptions World → UrlOptionsMap World → UrlOptionsMap World
  insert_option n [] = n ∷ []
  insert_option n (o ∷ m) =
      let rest = insert_option n m in
      elim (strcmp n.url o.url) [ lt ↦ n ∷ o ∷ m | eq ↦ o ∷ m | gt ↦ o ∷ rest ]

  -- `AddUrlOption`; a missing text is a NULL pointer.
  unfoldable pub add_url_option :
      Bytes
      → ℕ
      → Option (UserHandler World)
      → Option Bytes
      → Option Bytes
      → ℕ
      → UrlOptionsMap World
      → Bool × UrlOptionsMap World
  add_url_option [] object handler dir file flags m = (false, m)
  add_url_option (c ∷ s) object handler dir file flags m =
      let url = with_delimiter b'/' (c ∷ s) in
      let o : UrlOptions World = record {
        url = url;
        object = object;
        handler = handler;
        local_dir = local_directory (text_or [] dir);
        default_file = text_or (codes "index.html") file;
        flags = flags;
      } in
      (true, insert_option o (erase_url url m))

  -- The loop of `FindUrlOption`: from an element back to the begin.
  abbrev pub walk_back : Bytes → List (UrlOptions World) → Option (UrlOptions World)
  walk_back url [] = none
  walk_back url (o ∷ before) =
      let earlier = walk_back url before in if starts ◌==◌ o.url url then some o else earlier

  -- `lower_bound`, which walks over the elements in front of the url, and the loop from there; at
  -- the end of the map it begins one element before.
  abbrev pub search_option :
      Bytes → List (UrlOptions World) → UrlOptionsMap World → Option (UrlOptions World)
  search_option url passed [] = walk_back url passed
  search_option url passed (o ∷ m) =
      let further = search_option url (o ∷ passed) m in
      elim (strcmp o.url url) [ lt ↦ further | _ ↦ walk_back url (o ∷ passed) ]

  unfoldable pub find_url_option : Bytes → UrlOptionsMap World → Option (UrlOptions World)
  find_url_option url [] = none
  find_url_option url (o ∷ m) = search_option url [] (o ∷ m)
