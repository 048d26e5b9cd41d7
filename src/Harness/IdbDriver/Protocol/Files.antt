-- ===== src/Harness/IdbDriver/Protocol/Files.antt =====
-- The files of a store in IndexedDB, and what each call of the drivers does to them.
use rust_browser_proofs.Base.{
  ℕ, zero, suc, String, ◌≡◌, ◌==◌, string_eq, Option, none, some, List, [], ◌∷◌, ◌++◌, length,
  if◌then◌else◌,
}
use rust_browser_proofs.Base.Bytes.{zeros}
use rust_browser_proofs.Harness.Vfs.{failed, parked, Vfs}
use rust_browser_proofs.Harness.IdbDriver.{Idb, database_of}
use rust_browser_proofs.Harness.IdbDriver.Completes.{Completes}

-- How a durable file image stands to the namespace: its path is published, or is not yet so, by the
-- worker that wrote it, or was not when that worker ended, or the image has been swept since.
pub data Link : Type 0 where
  pending published orphaned swept : Link

pub record Image : Type 0 where
  pub path : String
  pub content : List ℕ
  pub link : Link

-- A new worker finds the path published or not.
abbrev pub reopened : Link → Link
reopened pending = orphaned
reopened published = published
reopened orphaned = orphaned
reopened swept = swept

-- A sync of the namespace publishes the worker's own paths and sweeps the others' leavings.
abbrev pub settled : Link → Link
settled pending = published
settled published = published
settled orphaned = swept
settled swept = swept

abbrev pub relink : (Link → Link) → List Image → List Image
relink f [] = []
relink f (i ∷ images) = record i { link = f i.link } ∷ relink f images

abbrev visible : Link → String → List ℕ → String → Option (List ℕ) → Option (List ℕ)
visible published p content path rest = if path == p then some content else rest
visible _ p content path rest = rest

-- The content under a published path.
abbrev pub content_of : String → List Image → Option (List ℕ)
content_of path [] = none
content_of path (i ∷ images) = visible i.link i.path i.content path (content_of path images)

abbrev kept : Link → List ℕ → Option (List ℕ)
kept swept content = none
kept _ content = some content

-- The image of a file, by its number in the order of creation.
abbrev pub image_at : ℕ → List Image → Option (List ℕ)
image_at n [] = none
image_at zero (i ∷ images) = kept i.link i.content
image_at (suc n) (i ∷ images) = image_at n images

abbrev pub synced : String → List ℕ → Image
synced path content = record { path = path; content = content; link = pending }

pub record Durable (V : Vfs) (I : Idb V) : Type 1 where
  -- the store of a root holds these images and nobody has it open
  pub IsStored : String → List Image → V.World → Type 0
  -- this worker has it open, with so many files and stores besides
  pub IsOpen : String → List Image → ℕ → V.World → Type 0
  -- besides, this worker has a new file at that path, whose content is not synced
  pub IsCreated : String → List Image → ℕ → V.File → String → List ℕ → V.World → Type 0
  -- a handle for reading, by root and path, and a store by its root
  pub IsHandle : String → String → V.File → Type 0
  pub IsStore : String → I.Store → Type 0
  -- the end of the worker
  pub kill : V.World → V.World
  pub killed :
      (root : String) (d : List Image) (n : ℕ) (w : V.World)
      → IsOpen root d n w
      → IsStored root d (kill w)
  pub with_root :
      (root : String) (d : List Image) (w : V.World)
      → IsStored root d w
      → Completes (I.with_root root) w (λ _ v. IsOpen root (relink reopened d) 0 v)
  pub create :
      (root path : String) (d : List Image) (n : ℕ) (w : V.World)
      → IsOpen root d n w
      → content_of path d ≡ none
      → Completes (V.open_file path I.create_new) w (λ file v. IsCreated root d n file path [] v)
  pub write_at :
      (root path : String) (d : List Image) (n : ℕ) (file : V.File) (content : List ℕ) (w : V.World)
      → IsCreated root d n file path [] w
      → Completes (V.write_at file 0 content) w (λ _ v. IsCreated root d n file path content v)
  pub sync :
      (root path : String) (d : List Image) (n : ℕ) (file : V.File) (content : List ℕ) (w : V.World)
      → IsCreated root d n file path content w
      → Completes (V.sync file) w (λ _ v. IsOpen root (d ++ (synced path content ∷ [])) (suc n) v)
  pub sync_dir :
      (root : String) (d : List Image) (n : ℕ) (w : V.World)
      → IsOpen root d n w
      → Completes (V.sync_dir "/") w (λ _ v. IsOpen root (relink settled d) n v)
  -- behind `pause` a sync of the namespace stands still in its transaction and publishes nothing
  pub paused :
      (root : String) (d : List Image) (n : ℕ) (w : V.World)
      → IsOpen root d n w
      → (v : V.World) × (V.sync_dir "/" (I.pause w) ≡ (parked, v)) × IsOpen root d n v
  pub open_read :
      (root path : String) (d : List Image) (n : ℕ) (content : List ℕ) (w : V.World)
      → IsOpen root d n w
      → content_of path d ≡ some content
      → Completes
          (V.open_file path I.read_mode)
          w
          (λ file v. IsHandle root path file × IsOpen root d (suc n) v)
  pub open_absent :
      (root path : String) (d : List Image) (n : ℕ) (w : V.World)
      → IsOpen root d n w
      → content_of path d ≡ none
      → (e : V.Error) × (v : V.World) × (V.open_file path I.read_mode w ≡ (failed e, v))
        × IsOpen root d n v
  -- a read into a buffer of the file's size
  pub read_at :
      (root path : String) (d : List Image) (n : ℕ) (file : V.File) (content : List ℕ) (w : V.World)
      → IsOpen root d n w
      → IsHandle root path file
      → content_of path d ≡ some content
      → Completes
          (V.read_at file 0 (zeros (length content)))
          w
          (λ read v. (read ≡ (length content, content)) × IsOpen root d n v)
  pub store_open :
      (root : String) (d : List Image) (n : ℕ) (w : V.World)
      → IsOpen root d n w
      → Completes
          (I.store_open (database_of root))
          w
          (λ store v. IsStore root store × IsOpen root d (suc n) v)
  pub load_file :
      (root : String) (d : List Image) (n : ℕ) (store : I.Store) (id : ℕ) (w : V.World)
      → IsOpen root d n w
      → IsStore root store
      → Completes (I.load_file store id) w (λ image v. (image ≡ image_at id d) × IsOpen root d n v)
  pub store_close :
      (root : String) (d : List Image) (n : ℕ) (store : I.Store) (w : V.World)
      → IsOpen root d (suc n) w
      → IsOpen root d n (I.store_close store w)
  pub drop_file :
      (root path : String) (d : List Image) (n : ℕ) (file : V.File) (w : V.World)
      → IsOpen root d (suc n) w
      → IsHandle root path file
      → IsOpen root d n (I.drop_file file w)
  pub drop_vfs :
      (root : String) (d : List Image) (w : V.World)
      → IsOpen root d 0 w
      → IsStored root d (I.drop_vfs w)
  -- which waits until nobody has the store open
  pub delete :
      (root : String) (d : List Image) (w : V.World)
      → IsStored root d w
      → Completes (I.delete (database_of root)) w (λ _ v. IsStored root [] v)
  pub post_message :
      (root text : String) (d : List Image) (n : ℕ) (w : V.World)
      → IsOpen root d n w
      → Completes (I.post_message text) w (λ _ v. IsOpen root d n v)
