-- ===== src/S3/Tests.antt =====
-- Uploads to a bucket in memory.
use cs_backup_helper.Base.{
  ◌≢◌, arith, ℕ, ◌≡◌, refl, Bool, true, false, Option, none, some, is_some, List, [], ◌∷◌, ◌++◌,
  length, map, if◌then◌else◌,
}
use cs_backup_helper.Base.Text.{Text, codes}
use cs_backup_helper.Base.Dict.{lookup, insert, erase}
use cs_backup_helper.Base.Result.{ok}
use cs_backup_helper.S3.{S3Config, Client, chunks, put, get, delete, exists, full_key}
use cs_backup_helper.S3.Chunks.{joined, Uniform, chunks_exact}
use cs_backup_helper.S3.Stored.{put_stores}
use cs_backup_helper.S3.Memory.{Store, client, contents, client-IsBucket}

abbrev cfg : S3Config
cfg = record {
  bucket = codes "b";
  prefix = codes "p/";
  region = [];
  multipart_threshold = 4;
  multipart_chunk_size = 2;
  ensure_bucket = false;
}

abbrev empty : Store
empty = record { objects = []; pieces = [] }

abbrev after : Store
after = record { objects = (codes "p/k", codes "abcde") ∷ []; pieces = [] }

uploaded : put client cfg (codes "abcde") (codes "k") empty ≡ (ok tt, after)
unfolding put lookup insert cs_backup_helper.Base.Text.text_eq
uploaded = refl

-- What was put is there and is read, and what was deleted is not.
deleted :
    (exists client cfg (λ e. true) (codes "k") after ≡ (ok true, after))
    × (get client cfg (codes "k") after ≡ (ok (codes "abcde"), after))
    × (delete client cfg (codes "k") after ≡ (ok tt, empty))
    × (exists client cfg (λ e. true) (codes "k") empty ≡ (ok false, empty))
unfolding exists get delete lookup erase cs_backup_helper.Base.Text.text_eq
deleted = (refl, refl, refl, refl)

put_stores_example :
    ((w' : Store)
      → put client cfg (codes "abcde") (codes "k") empty ≡ (ok tt, w')
      → (lookup (full_key client cfg (codes "k")) w'.objects ≡ some (codes "abcde"))
        × ((v : Store) × (Client.head_object client cfg.bucket (full_key client cfg (codes "k")) v
              ≡ (ok 5, w'))))
    × ((j : Text)
        → full_key client cfg (codes "k") ≢ j
        → lookup j (put client cfg (codes "abcde") (codes "k") empty).1.objects
          ≡ lookup j empty.objects)
put_stores_example =
    put_stores client cfg contents (client-IsBucket (codes "b")) (omega arith) (codes "abcde")
      (codes "k") empty

chunks_exact_example :
    (joined (chunks 2 (codes "abcde")) ≡ codes "abcde") × Uniform 2 (chunks 2 (codes "abcde"))
chunks_exact_example = chunks_exact 2 (omega arith) (codes "abcde")
