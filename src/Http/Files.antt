-- ===== src/Http/Files.antt =====
-- `HandleFileRequest` of HttpServerLib/HttpServer.cpp. The file system is a parameter: what is on
-- the disk is `World`, which the handlers of the urls may change too.
pub mod Storing
use Prim.Native.Nat.{bit_and}
use lib_abk.Common.{
  ℕ, suc, ◌-◌, ◌+◌, Bool, true, false, not, ◌&&◌, ◌||◌, [], ◌∷◌, ◌++◌, ◌==◌, ltb, leb, Bytes, codes,
  Option, none, some, if◌then◌else◌, equal, length, map,
}
use lib_abk.Http.Text.{drop, until_nul}
use lib_abk.Http.Options.{HttpRequest, HttpResponse, UrlOptions}

-- `fopen` for update with the bytes that can be read from the file, `_mkdir`, `fopen` for writing,
-- and `fwrite` with whether it wrote its item.
pub record Disk (World : Type 0) : Type 0 where
  pub read_file : Bytes → World → Option Bytes
  pub make_dir : Bytes → World → World
  pub open_write : Bytes → World → Option World
  pub write_file : Bytes → Bytes → World → Bool × World

abbrev pub allow_read : ℕ
allow_read = 1

abbrev pub allow_write : ℕ
allow_write = 2

abbrev pub allow_delete : ℕ
allow_delete = 8

abbrev pub allows : ℕ → ℕ → Bool
allows flag flags = not (bit_and flags flag == 0)

abbrev backslash : ℕ → ℕ
backslash c = if c == b'/' then b'\\' else c

-- The local path of a requested file.
abbrev pub local_path : {World : Type 0} → UrlOptions World → HttpRequest → Bytes
local_path o q =
    if equal q.method (codes "GET") && equal q.url (codes "/")
    then o.local_dir ++ o.default_file
    else o.local_dir ++ map backslash (drop (length o.url) q.url)

abbrev to_lower : ℕ → ℕ
to_lower c = if leb b'A' c && leb c b'Z' then c + 32 else c

-- Whether a path ends in `.css`; where it is shorter, the code reads in front of it.
abbrev pub ends_css : Bytes → Option Bool
ends_css path =
    if ltb (length path) 4
    then none
    else some (equal (map to_lower (until_nul (drop (length path - 4) path))) (codes ".css"))

abbrev with_type : Bool → Bytes → Bytes
with_type true old = codes "Content-Type: text/css" ++ (b'\r' ∷ b'\n' ∷ [])
with_type false old = old

-- The response that holds the content of a file.
abbrev pub file_response : Bool → Bytes → HttpResponse → HttpResponse
file_response css content r = record r {
  vect_data = content;
  status_code = 200;
  extra_headers = with_type css r.extra_headers;
}

module _ {World : Type 0} (disk : Disk World) where
  -- The directories in front of each delimiter, the text in front of it being the first argument.
  abbrev pub make_dirs : Bytes → Bytes → World → World
  make_dirs front [] w = w
  make_dirs front (c ∷ s) w =
      make_dirs (front ++ (c ∷ [])) s (if c == b'\\' then disk.make_dir (until_nul front) w else w)

  abbrev pub get_file : Bytes → HttpResponse → World → Option (HttpResponse × World)
  get_file path r w = elim (disk.read_file (until_nul path) w) [
    | none ↦ some (record r { status_code = 404 }, w)
    | some content ↦ elim (ends_css path) [
      | none ↦ none
      | some css ↦ some (file_response css content r, w)
    ]
  ]

  abbrev pub put_file : Bytes → Bytes → HttpResponse → World → HttpResponse × World
  put_file path content r w = elim (disk.open_write (until_nul path) (make_dirs [] path w)) [
    | none ↦ (record r { status_code = 406 }, make_dirs [] path w)
    | some opened ↦
        let (all, done) = disk.write_file (until_nul path) content opened in
        (record r { status_code = if all then 201 else 500 }, done)
  ]

  -- `HandleFileRequest`; none where it reads in front of the path.
  unfoldable pub handle_file_request :
      HttpRequest → HttpResponse → UrlOptions World → World → Option (HttpResponse × World)
  handle_file_request q r o w =
      let path = local_path o q in
      if equal o.local_dir []
      then some (record r { status_code = 403 }, w)
      else if equal q.method (codes "GET") && allows allow_read o.flags
      then get_file path r w
      else if equal q.method (codes "PUT") && allows allow_write o.flags
      then some (put_file path q.str_data r w)
      else if equal q.method (codes "POST")
      then some (record r { status_code = 501 }, w)
      else if equal q.method (codes "DELETE") && allows allow_delete o.flags
      then some (record r { status_code = 501 }, w)
      else some (record r { status_code = if r.status_code == 0 then 403 else r.status_code }, w)
