-- ===== src/Http/Files/Storing.antt =====
-- `HandleFileRequest` as a store of files: what is put under a url is what is got there.
use mathlib.Core.Option.{some-injective}
use lib_abk.Common.{
  Bool, true, false, ◌&&◌, ◌≡◌, refl, sym, ap, ◌∙◌, [], ◌==◌, Bytes, codes, Option, some,
  if◌then◌else◌, equal, equal_iff, arith, Bool-cases, Option-cases, inl, inr, subst, ◌⊎◌,
}
use lib_abk.Http.Text.{until_nul}
use lib_abk.Http.Options.{HttpRequest, HttpResponse, UrlOptions}
use lib_abk.Http.Files.{
  Disk, allow_read, allow_write, allows, local_path, ends_css, make_dirs, get_file, put_file,
  file_response, allow_delete, handle_file_request,
}

-- A request for a url by a method.
abbrev pub ask : Bytes → Bytes → Bytes → HttpRequest
ask method url content = record {
  method = method;
  url = url;
  query = [];
  client_addr = [];
  str_data = content;
}

both_left : (a b : Bool) → (a && b) ≡ true → a ≡ true
both_left true b h = refl
both_left false b h = h

both_right : (a b : Bool) → (a && b) ≡ true → b ≡ true
both_right true b h = h
both_right false b h = cc

same_world :
    {World : Type 0} {x a : HttpResponse} {w w' : World}
    → ◌≡◌ {A = Option (HttpResponse × World)} (some (x, w)) (some (a, w'))
    → w' ≡ w
same_world e = ap (λ x. x.1) (sym (some-injective _ _ e))

module _ {World : Type 0} (disk : Disk World) where
  module _ (o : UrlOptions World) (named : equal o.local_dir [] ≡ false) where
    put-put_file :
        (url content : Bytes) (r : HttpResponse) (w : World)
        → allows allow_write o.flags ≡ true
        → handle_file_request disk (ask (codes "PUT") url content) r o w
          ≡ some (put_file disk (local_path o (ask (codes "PUT") url content)) content r w)
    unfolding handle_file_request
    put-put_file url content r w h = rw (named, h, handle_file_request) refl

    get-get_file :
        (url content : Bytes) (r : HttpResponse) (w : World)
        → allows allow_read o.flags ≡ true
        → handle_file_request disk (ask (codes "GET") url content) r o w
          ≡ get_file disk (local_path o (ask (codes "GET") url content)) r w
    unfolding handle_file_request
    get-get_file url content r w h = rw (named, h, handle_file_request) refl

    same_path :
        (url content : Bytes)
        → equal url (codes "/") ≡ false
        → local_path o (ask (codes "GET") url []) ≡ local_path o (ask (codes "PUT") url content)
    same_path url content h = rw h refl

  -- The disk gives what was written to a file when the file is read.
  abbrev pub KeepsFiles : Type 0
  KeepsFiles =
      (path content : Bytes) (w opened done : World)
      → disk.open_write path w ≡ some opened
      → disk.write_file path content opened ≡ (true, done)
      → disk.read_file path done ≡ some content

  put_file-created :
      (keeps : KeepsFiles) (path content : Bytes) (r a : HttpResponse) (w w' : World)
      → put_file disk path content r w ≡ (a, w')
      → a.status_code ≡ 201
      → disk.read_file (until_nul path) w' ≡ some content
  put_file-created keeps path content r a w w' e h =
      elim (Option-cases (disk.open_write (until_nul path) (make_dirs disk [] path w))) [
        | inl n ↦
            let code : 406 ≡ a.status_code =
              ap (λ (x : HttpResponse × World). x.0.status_code) (rw (n, put_file) at e) in
            absurd (omega (arith, code, h))
        | inr (opened, f) ↦
            let after = ap (λ (x : HttpResponse × World). x.1) (rw (f, put_file) at e) in
            let code = ap (λ (x : HttpResponse × World). x.0.status_code) (rw (f, put_file) at e) in
            elim (Bool-cases (disk.write_file (until_nul path) content opened).0) [
              | inl t ↦
                  subst (λ x. disk.read_file (until_nul path) x ≡ some content) after
                    (keeps (until_nul path) content (make_dirs disk [] path w) opened
                      (disk.write_file (until_nul path) content opened).1 f
                      (ap (λ b. (b, (disk.write_file (until_nul path) content opened).1)) t))
              | inr t ↦
                  let five : 500 ≡ a.status_code = rw t at code in absurd (omega (arith, five, h))
            ]
      ]

  -- A file that was put with the answer 201 is got with the status 200 and with the data that was
  -- put, under any url but the root, when the options allow both and name a local directory, the
  -- disk keeps what is written to it, and the local path has at least four characters.
  pub handle_file_request-put_get :
      (keeps : KeepsFiles) (o : UrlOptions World) (url content : Bytes) (r r' a : HttpResponse)
      (w w' : World) (css : Bool)
      → equal o.local_dir [] ≡ false
      → allows allow_read o.flags ≡ true
      → allows allow_write o.flags ≡ true
      → equal url (codes "/") ≡ false
      → ends_css (local_path o (ask (codes "GET") url [])) ≡ some css
      → handle_file_request disk (ask (codes "PUT") url content) r o w ≡ some (a, w')
      → a.status_code ≡ 201
      → (b : HttpResponse) × (handle_file_request disk (ask (codes "GET") url []) r' o w'
          ≡ some (b, w'))
        × (b.status_code ≡ 200)
        × (b.vect_data ≡ content)
  handle_file_request-put_get keeps o url content r r' a w w' css named reads writes root long put
        created =
      let path = local_path o (ask (codes "PUT") url content) in
      let stored =
        put_file-created keeps path content r a w w'
          (some-injective _ _ (sym (put-put_file o named url content r w writes) ∙ put)) created in
      let found =
        subst (λ p. disk.read_file (until_nul p) w' ≡ some content)
          (sym (same_path o named url content root)) stored in
      (
        file_response css content r',
        get-get_file o named url [] r' w' reads ∙ rw (found, long, get_file) refl,
        refl,
        refl,
      )

  -- The branches of the code behind the reading and the writing of files.
  abbrev refused :
      HttpRequest → HttpResponse → UrlOptions World → World → Option (HttpResponse × World)
  refused q r o w =
      if equal q.method (codes "POST")
      then some (record r { status_code = 501 }, w)
      else if equal q.method (codes "DELETE") && allows allow_delete o.flags
      then some (record r { status_code = 501 }, w)
      else some (record r { status_code = if r.status_code == 0 then 403 else r.status_code }, w)

  refused-world :
      (q : HttpRequest) (r a : HttpResponse) (o : UrlOptions World) (w w' : World)
      → refused q r o w ≡ some (a, w')
      → w' ≡ w
  refused-world q r a o w w' e = elim (Bool-cases (equal q.method (codes "POST"))) [
    | inl h ↦ same_world (rw h at e)
    | inr h ↦ elim (Bool-cases (equal q.method (codes "DELETE") && allows allow_delete o.flags)) [
      | inl g ↦ same_world (rw (h, g) at e)
      | inr g ↦ same_world (rw (h, g) at e)
    ]
  ]

  get_file-world :
      (path : Bytes) (r a : HttpResponse) (w w' : World)
      → get_file disk path r w ≡ some (a, w')
      → w' ≡ w
  get_file-world path r a w w' e = elim (Option-cases (disk.read_file (until_nul path) w)) [
    | inl n ↦ same_world (rw (n, get_file) at e)
    | inr (content, f) ↦ elim (Option-cases (ends_css path)) [
      | inl n ↦ cc (rw (f, n, get_file) at e)
      | inr (css, g) ↦ same_world (rw (f, g, get_file) at e)
    ]
  ]

  -- A request changes the disk only if it is a PUT and the options allow writing and name a local
  -- directory.
  pub handle_file_request-unchanged :
      (q : HttpRequest) (r a : HttpResponse) (o : UrlOptions World) (w w' : World)
      → handle_file_request disk q r o w ≡ some (a, w')
      → (w' ≡ w)
        ⊎ ((q.method ≡ codes "PUT") × (allows allow_write o.flags ≡ true) × ¬ (o.local_dir ≡ []))
  unfolding handle_file_request
  handle_file_request-unchanged q r a o w w' e = elim (Bool-cases (equal o.local_dir [])) [
    | inl h ↦ inl (same_world (rw h at e))
    | inr h ↦ elim (Bool-cases (equal q.method (codes "GET") && allows allow_read o.flags)) [
      | inl g ↦ inl (get_file-world (local_path o q) r a w w' (rw (h, g) at e))
      | inr g ↦ elim (Bool-cases (equal q.method (codes "PUT") && allows allow_write o.flags)) [
        | inl p ↦ inr (
          (equal_iff q.method (codes "PUT")).0 (both_left _ _ p),
          both_right _ _ p,
          λ z. cc ((equal_iff o.local_dir []).1 z, h),
        )
        | inr p ↦ inl (refused-world q r a o w w' (rw (h, g, p) at e))
      ]
    ]
  ]
