-- ===== src/Manager/Storage/Contract.antt =====
-- What a storage promises, and both storages against it: a value for each plugin and key, which the
-- last operation on them decides.
use dragonfly_wasm.Prelude.{
  ℕ, String, ◌≡◌, refl, sym, ◌∙◌, ap, inl, inr, Bool, true, false, ◌&&◌, Option, none, some, List,
  [], ◌∷◌, str_eq, if◌then◌else◌, GoMap, get, delete, get-put, get-delete, value_or, text_cases,
}
use dragonfly_wasm.Manager.Storage.{Files, Values, get_value, write_value, remove_value, read_value}
use dragonfly_wasm.Manager.Storage.Memory as Memory
use dragonfly_wasm.Manager.Storage.File as File
use dragonfly_wasm.Manager.Storage.File.{FileStorage}

-- The operations that change a storage.
pub data Operation : Type 0 where
  sets : (plugin_id key : String) (value : List ℕ) → Operation
  deletes : (plugin_id key : String) → Operation
  clears : (plugin_id : String) → Operation

-- The specification: a value, or none, for each plugin and key.
abbrev pub Contents : Type 0
Contents = String → String → Option (List ℕ)

abbrev pub apply : Operation → Contents → Contents
apply (sets p k v) c = λ i j. if str_eq p i && str_eq k j then some v else c i j
apply (deletes p k) c = λ i j. if str_eq p i && str_eq k j then none else c i j
apply (clears p) c = λ i j. if str_eq p i then none else c i j

abbrev pub apply_all : List Operation → Contents → Contents
apply_all [] c = c
apply_all (o ∷ os) c = apply_all os (apply o c)

-- The same operation on a `MemoryStorage`.
abbrev pub in_memory : Operation → Memory.MemoryStorage → Memory.MemoryStorage
in_memory (sets p k v) s = Memory.set s p k v
in_memory (deletes p k) s = Memory.delete_key s p k
in_memory (clears p) s = Memory.clear s p

abbrev pub in_memory_all : List Operation → Memory.MemoryStorage → Memory.MemoryStorage
in_memory_all [] s = s
in_memory_all (o ∷ os) s = in_memory_all os (in_memory o s)

module _ {W : Type 0} (env : Files W) where
  -- The same operation on a `FileStorage`; its error goes to the caller.
  abbrev pub in_files : Operation → FileStorage × W → FileStorage × W
  in_files (sets p k v) (s, w) = let (e, s', w') = File.set env s p k v w in (s', w')
  in_files (deletes p k) (s, w) = let (e, s', w') = File.delete_key env s p k w in (s', w')
  in_files (clears p) (s, w) = let (e, s', w') = File.clear env s p w in (s', w')

  abbrev pub in_files_all : List Operation → FileStorage × W → FileStorage × W
  in_files_all [] s = s
  in_files_all (o ∷ os) s = in_files_all os (in_files o s)

read_value-get :
    (values : Option Values) (key : String) → read_value values key ≡ get (value_or values []) key
read_value-get none key = unfold get in refl
read_value-get (some values) key = refl

get_value-write_value :
    (m : GoMap Values) (p k i j : String) (v : List ℕ)
    → get_value (write_value m p k v) i j
      ≡ (if str_eq p i && str_eq k j then some v else get_value m i j)
unfolding get_value write_value
get_value-write_value m p k i j v = elim (text_cases p i) [
  | inl (t, same) ↦
      ap (λ o. read_value o j) (get-put m p i _)
      ∙ rw t (
          get-put (value_or (get m p) []) k j v
          ∙ ap (λ o. if str_eq k j then some v else o)
              (sym (read_value-get (get m p) j) ∙ ap (λ x. read_value (get m x) j) same))
  | inr (f, _) ↦ ap (λ o. read_value o j) (get-put m p i _) ∙ rw f refl
]

get_value-remove_value :
    (m : GoMap Values) (p k i j : String) (values : Values)
    → get m p ≡ some values
    → get_value (remove_value m p values k) i j
      ≡ (if str_eq p i && str_eq k j then none else get_value m i j)
unfolding get_value remove_value
get_value-remove_value m p k i j values h = elim (text_cases p i) [
  | inl (t, same) ↦
      ap (λ o. read_value o j) (get-put m p i _)
      ∙ rw t (
          get-delete values k j
          ∙ ap (λ o. if str_eq k j then none else o)
              (ap (λ o. read_value o j) (sym h) ∙ ap (λ x. read_value (get m x) j) same))
  | inr (f, _) ↦ ap (λ o. read_value o j) (get-put m p i _) ∙ rw f refl
]

get_value-delete_of :
    (m : GoMap Values) (p k i j : String) (o : Option Values)
    → get m p ≡ o
    → get_value (Memory.delete_of m p k o) i j
      ≡ (if str_eq p i && str_eq k j then none else get_value m i j)
unfolding Memory.delete_of
get_value-delete_of m p k i j (some values) h = get_value-remove_value m p k i j values h
get_value-delete_of m p k i j none h = elim (text_cases p i) [
  | inl (t, same) ↦ rw t (unchanged (str_eq k j) (nothing same))
  | inr (f, _) ↦ rw f refl
]
  where
    nothing : p ≡ i → get_value m i j ≡ none
    nothing same =
        unfold get_value in
        (ap (λ x. read_value (get m x) j) (sym same) ∙ ap (λ o. read_value o j) h)

    unchanged : {v : Option (List ℕ)} (b : Bool) → v ≡ none → v ≡ (if b then none else v)
    unchanged true e = e
    unchanged false e = refl

get_value-clear :
    (m : GoMap Values) (p i j : String)
    → get_value (delete m p) i j ≡ (if str_eq p i then none else get_value m i j)
unfolding get_value
get_value-clear m p i j = elim (text_cases p i) [
  | inl (t, _) ↦ ap (λ o. read_value o j) (get-delete m p i) ∙ rw t refl
  | inr (f, _) ↦ ap (λ o. read_value o j) (get-delete m p i) ∙ rw f refl
]

pub in_memory-apply :
    (o : Operation) (s : Memory.MemoryStorage) (i j : String)
    → get_value (in_memory o s) i j ≡ apply o (get_value s) i j
unfolding Memory.set Memory.delete_key Memory.clear
in_memory-apply (sets p k v) s i j = get_value-write_value s p k i j v
in_memory-apply (deletes p k) s i j = get_value-delete_of s p k i j (get s p) refl
in_memory-apply (clears p) s i j = get_value-clear s p i j

-- After any operations, a `MemoryStorage` gives the value of a plugin and a key that the
-- specification gives: that of the last `Set`, unless it was deleted or cleared since.
pub in_memory_all-apply_all :
    (os : List Operation) (s : Memory.MemoryStorage) (i j : String)
    → get_value (in_memory_all os s) i j ≡ apply_all os (get_value s) i j
in_memory_all-apply_all [] s i j = refl
in_memory_all-apply_all (o ∷ os) s i j =
    in_memory_all-apply_all os (in_memory o s) i j
    ∙ ap (λ c. apply_all os c i j) (λ t. λ p k. in_memory-apply o s p k t)

module _ {W : Type 0} (env : Files W) where
  delete_of_same :
      (s : FileStorage) (p k : String) (o : Option Values) (w : W)
      → (File.delete_of env s p k o w).1.entries ≡ Memory.delete_of s.entries p k o
  unfolding File.delete_of Memory.delete_of
  delete_of_same s p k none w = refl
  delete_of_same s p k (some values) w = refl

  in_files_same :
      (o : Operation) (s : FileStorage) (w : W)
      → (in_files env o (s, w)).0.entries ≡ in_memory o s.entries
  unfolding File.set File.delete_key File.clear Memory.set Memory.delete_key Memory.clear
  in_files_same (sets p k v) s w = refl
  in_files_same (deletes p k) s w = delete_of_same s p k (get s.entries p) w
  in_files_same (clears p) s w = refl

  -- After any operations, whatever errors the file system and the codec answer, a `FileStorage`
  -- gives the value of a plugin and a key that the specification gives.
  pub in_files_all-apply_all :
      (os : List Operation) (s : FileStorage) (w : W) (i j : String)
      → get_value (in_files_all env os (s, w)).0.entries i j
        ≡ apply_all os (get_value s.entries) i j
  in_files_all-apply_all [] s w i j = refl
  in_files_all-apply_all (o ∷ os) s w i j =
      let (s', w') = in_files env o (s, w) in
      in_files_all-apply_all os s' w' i j
      ∙ ap (λ m. apply_all os (get_value m) i j) (in_files_same o s w)
      ∙ ap (λ c. apply_all os c i j) (λ t. λ p k. in_memory-apply o s.entries p k t)
