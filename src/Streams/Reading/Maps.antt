-- ===== src/Streams/Reading/Maps.antt =====
-- The readers into maps: the last item with a key wins.
use my_grpc_extensions.Prelude.{
  ◌≡◌, refl, ap, ◌∙◌, Bool, List, [], ◌∷◌, map, Option, none, some, ok, err, elapsed, finished,
  arith, if◌then◌else◌,
}
use my_grpc_extensions.Streams.Streaming.{Streaming}
use my_grpc_extensions.Streams.Reading.{
  MapOps, map_loop, as_hash_map, b_tree_map_loop, as_b_tree_map,
}
use my_grpc_extensions.Streams.Reading.Received.{received, read_failure, unless}

abbrev pub or_else : {A : Type 0} → Option A → Option A → Option A
or_else none b = b
or_else (some a) b = some a

pub or_else-none : {A : Type 0} (a : Option A) → or_else a none ≡ a
or_else-none none = refl
or_else-none (some a) = refl

-- the value of the last pair with the key
abbrev pub last_value : {K V : Type 0} → (K → K → Bool) → K → List (K × V) → Option V
last_value key_eq k [] = none
last_value key_eq k ((j, v) ∷ pairs) =
    or_else (last_value key_eq k pairs) (if key_eq j k then some v else none)

module _ {TKey TResult : Type 0} (ops : MapOps TKey TResult) where
  open ops use {Map, key_eq, insert, get}

  insert_all : List (TKey × TResult) → Map → Map
  insert_all [] m = m
  insert_all ((k, v) ∷ pairs) m = insert_all pairs (insert k v m)

  get-insert_all :
      (pairs : List (TKey × TResult)) (m : Map) (k : TKey)
      → get k (insert_all pairs m) ≡ or_else (last_value key_eq k pairs) (get k m)
  unfolding insert_all
  get-insert_all [] m k = refl
  get-insert_all ((j, v) ∷ pairs) m k =
      ground (arith, get-insert_all pairs (insert j v m) k, ops.get-insert k j v m)

module _ {Status TransportError TSrc TKey TResult : Type 0} (ops : MapOps TKey TResult) where
  open ops use {Map, key_eq, empty, insert, get}

  map_loop-received :
      (get_key : TSrc → TKey × TResult) (result : Map) (s : Streaming Status TSrc)
      → map_loop {TransportError = TransportError} ops get_key result s
        ≡ unless (read_failure s) (insert_all ops (map get_key (received s)) result)
  unfolding map_loop insert_all
  map_loop-received get_key result [] = refl
  map_loop-received get_key result (elapsed ∷ s) = refl
  map_loop-received get_key result (finished (err e) ∷ s) = refl
  map_loop-received get_key result (finished (ok item) ∷ s) =
      map_loop-received get_key (insert (get_key item).0 (get_key item).1 result) s

  b_tree_map_loop-received :
      (get_key : TSrc → TKey × TResult) (result : Map) (s : Streaming Status TSrc)
      → b_tree_map_loop {TransportError = TransportError} ops get_key result s
        ≡ unless (read_failure s) (insert_all ops (map get_key (received s)) result)
  unfolding b_tree_map_loop insert_all
  b_tree_map_loop-received get_key result [] = refl
  b_tree_map_loop-received get_key result (elapsed ∷ s) = refl
  b_tree_map_loop-received get_key result (finished (err e) ∷ s) = refl
  b_tree_map_loop-received get_key result (finished (ok item) ∷ s) =
      b_tree_map_loop-received get_key (insert (get_key item).0 (get_key item).1 result) s

  -- Reading a stream into a map, of either kind, fails exactly as reading it into a vector does;
  -- the map that it gives has, under each key, the value of the last item with that key, and
  -- nothing under the other keys.
  pub as_hash_map-received :
      (get_key : TSrc → TKey × TResult) (s : Streaming Status TSrc)
      → (m : Map) × (as_hash_map {TransportError = TransportError} ops s get_key
          ≡ unless (read_failure s) m)
        × (as_b_tree_map {TransportError = TransportError} ops s get_key
            ≡ unless (read_failure s) m)
        × ((k : TKey) → get k m ≡ last_value key_eq k (map get_key (received s)))
  unfolding as_hash_map as_b_tree_map
  as_hash_map-received get_key s = (
    insert_all ops (map get_key (received s)) empty,
    map_loop-received get_key empty s,
    b_tree_map_loop-received get_key empty s,
    λ k.
        get-insert_all ops (map get_key (received s)) empty k
        ∙ ap (or_else (last_value key_eq k (map get_key (received s)))) (ops.get-empty k)
        ∙ or_else-none _,
  )
