-- ===== src/Request/Headers.antt =====
-- HTTPconnection.hpp, on_headers_complete: the exceptions.
use cloud_backup_system.Common.{
  ◌≡◌, refl, not, ◌&&◌, ◌||◌, some, [], ◌∷◌, Bytes, bytes, is_some, ◌>>=◌, inl, inr, Bool-cases,
}
use cloud_backup_system.Path.{is_empty}
use cloud_backup_system.Upload.{HttpMessageInfo}
use cloud_backup_system.Request.{asks, on_headers_complete, filename_of}

named :
    (path : Bytes) (g : Bytes → HttpMessageInfo)
    → is_some (filename_of path >>= (λ name. some (g name))) ≡ not (is_empty path)
named [] g = refl
named (c ∷ cs) g = refl

-- The end of the headers throws for the downloads and deletes without a path, and for no other
-- request.
pub on_headers_complete_faults :
    (m : HttpMessageInfo)
    → is_some (on_headers_complete m)
      ≡ not (
          (asks (bytes "GET") (bytes "/download") m || asks (bytes "DELETE") (bytes "/delete") m)
          && is_empty m.request_url_path)
unfolding on_headers_complete
on_headers_complete_faults m = elim (Bool-cases (asks (bytes "GET") (bytes "/download") m)) [
  | inl get ↦ rw (on_headers_complete, get) (named m.request_url_path _)
  | inr other ↦ elim (Bool-cases (asks (bytes "DELETE") (bytes "/delete") m)) [
    | inl del ↦ rw (on_headers_complete, other, del) (named m.request_url_path _)
    | inr neither ↦ elim (Bool-cases (asks (bytes "POST") (bytes "/upload") m)) [
      | inl post ↦ rw (on_headers_complete, other, neither, post)
      | inr none_of ↦ rw (on_headers_complete, other, neither, none_of)
    ]
  ]
]
