-- ===== src/Sharing/Examples.antt =====
-- The theorems of sharing at a concrete state.
use pcos.Prelude.{
  ℕ, ◌+◌, ◌≡◌, ◌≢◌, refl, List, [], ◌∷◌, Option, none, some, Bool, true, false, arith, All, Text,
  codes, text_eq, text_eq_iff, pos, inr,
}
use pcos.Common.Error.{not_found, unauthorized, database}
use pcos.Common.Result.{ok, err}
use pcos.Sharing.{
  ShareLink, CreateShareRequest, UpdateShareRequest, SharedFile, Shares, find_link, find_file,
  get_share, delete_share, create_share, created, hashed, update_share, access_shared,
}
use pcos.Sharing.Handlers.{
  Download, Field, admitted_link, shared_contents, check_share_password, answer, admit,
}
use pcos.Sharing.Limit.{IsWithin, HasUniqueIds, link_count}
use pcos.Sharing.Runs.{IsValid, Request, serve, total, Steps, serve_lem, overlap_exceeds}
use pcos.Sharing.Access.{info, create_then_access, strangers_refused}

-- Passwords are kept as they are.
abbrev hash_password : Text → Option Text
hash_password p = some p

abbrev verify_password : Text → Text → Option Bool
verify_password p h = some (text_eq p h)

abbrev read_file : Text → Option (List ℕ)
read_file path = some (1 ∷ 2 ∷ [])

abbrev file : SharedFile
file = record {
  id = 9;
  user_id = 1;
  parent_id = none;
  name = codes "a";
  entry_type = codes "file";
  mime_type = none;
  size_bytes = 2;
  storage_path = some (codes "p");
}

abbrev once : ShareLink
once = record {
  id = 5;
  user_id = 1;
  file_entry_id = 9;
  token = codes "t";
  permission = codes "download";
  password_hash = none;
  expires_at = none;
  max_downloads = some (pos 1);
  download_count = 0;
  is_active = true;
}

abbrev shares : Shares
shares = record { links = once ∷ []; files = file ∷ [] }

abbrev request : Request verify_password read_file
request = record { now = 0; token = codes "t"; query = none; header = none }

shares-IsValid : IsValid shares
unfolding HasUniqueIds
shares-IsValid = record { unique = (tt, tt); within = (omega arith, tt) }

serve_lem_example :
    let (rs, s') = serve verify_password read_file (request ∷ request ∷ []) shares in
    All IsWithin s'.links
    × ((id : ℕ)
        → link_count id s'.links
          ≡ link_count id shares.links + total verify_password read_file id rs)
serve_lem_example =
    serve_lem verify_password read_file (request ∷ request ∷ []) shares shares-IsValid

abbrev download : Download
download = answer verify_password read_file once (file, 1 ∷ 2 ∷ [])

admitted : admit verify_password read_file 0 (codes "t") none none shares ≡ ok download
unfolding admit admitted_link shared_contents check_share_password find_link find_file
admitted = refl

-- Two downloads through a link that allows one.
overlap_exceeds_example :
    (s' : Shares) × Steps verify_password read_file
      (record { shares = shares; admitted = [] })
      (record { shares = s'; admitted = [] })
    × (link_count 5 s'.links ≡ 0 + 2)
overlap_exceeds_example =
    overlap_exceeds verify_password read_file 2 0 (codes "t") none none shares download admitted
      (omega arith, tt)

abbrev create : CreateShareRequest
create = record {
  file_entry_id = 9;
  permission = codes "view";
  password = some (codes "pw");
  expires_in_hours = some (pos 1);
  max_downloads = none;
}

other_token : codes "t" ≢ codes "u"
other_token e = let same : false ≡ true = (text_eq_iff (codes "t") (codes "u")).1 e in ground arith

create_then_access_example :
    let s' = (create_share hash_password verify_password 100 1 create 6 (codes "u") shares).1 in
    (access_shared hash_password verify_password 200 (codes "u") (some (codes "pw")) s'
      ≡ ok (info hash_password verify_password file (codes "view")))
    × (access_shared hash_password verify_password 200 (codes "u") none s'
        ≡ err (unauthorized "Password required"))
    × (access_shared hash_password verify_password 200 (codes "u") (some (codes "no")) s'
        ≡ err (unauthorized "Invalid password"))
unfolding find_file
create_then_access_example =
    create_then_access hash_password verify_password 100 200 1 6 create (codes "u") (codes "pw")
      (codes "no") (codes "pw") file shares refl refl (other_token, tt) refl refl refl refl refl
      refl refl

abbrev open_folder : Shares
open_folder = record {
  links = record once { permission = codes "upload"; password_hash = some (codes "pw") } ∷ [];
  files = file ∷ [];
}

abbrev field : Field
field = record { name = some (codes "file"); file_name = none; content_type = none; bytes = 7 ∷ [] }

abbrev update : UpdateShareRequest
update = record {
  permission = none;
  password = some (codes "new");
  expires_in_hours = none;
  max_downloads = none;
  is_active = some false;
}

other_user : ◌≢◌ {A = ℕ} 1 2
other_user h = omega (arith, h)

-- A permission that the table does not know is refused.
unknown_permission :
    (create_share hash_password verify_password 100 1
      (record create { permission = codes "own" })
      6
      (codes "u")
      shares).0
    ≡ err (database "constraint")
unfolding create_share created hashed find_file
unknown_permission = refl

strangers_refused_example :
    (get_share 2 5 shares ≡ err (not_found "Share not found"))
    × (update_share hash_password verify_password 0 2 5 update shares
        ≡ (err (not_found "Share not found"), shares))
    × (delete_share 2 5 shares ≡ (err (not_found "Share not found"), shares))
strangers_refused_example =
    strangers_refused hash_password verify_password 0 2 5 update shares (inr other_user, tt)
