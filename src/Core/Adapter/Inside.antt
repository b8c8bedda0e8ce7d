-- ===== src/Core/Adapter/Inside.antt =====
-- Where the library of an accepted manifest lies.
use mathlib.Core.List.{append_assoc}
use pingling.Prelude.{
  String, ◌≡◌, refl, sym, ◌∙◌, List, [], ◌∷◌, ◌++◌, Bool, true, false, not, all, ok, ◌==◌, ◌||◌,
  arith, >>-eq-ok, reject_if,
}
use pingling.Prelude.Text.{trim_is_empty}
use pingling.Core.Adapter.{
  Component, prefix, root_dir, cur_dir, parent_dir, normal, Paths, AdapterManifest, stays_inside,
  validate_library_path, validate_adapter_manifest, core_abi_version,
}

-- The directory that a path leads to from another, as the names from the innermost to the root.
abbrev pub leads_to : List Component → List String → List String
leads_to [] dir = dir
leads_to (prefix ∷ cs) dir = leads_to cs []
leads_to (root_dir ∷ cs) dir = leads_to cs []
leads_to (cur_dir ∷ cs) dir = leads_to cs dir
leads_to (parent_dir ∷ cs) [] = leads_to cs []
leads_to (parent_dir ∷ cs) (name ∷ dir) = leads_to cs dir
leads_to (normal name ∷ cs) dir = leads_to cs (name ∷ dir)

-- Some way below a directory, or that directory.
pub record Below (dir place : List String) : Type 0 where
  pub names : List String
  pub here : place ≡ names ++ dir

inside-Below :
    (cs : List Component) (dir : List String)
    → all stays_inside cs ≡ true
    → Below dir (leads_to cs dir)
unfolding stays_inside
inside-Below [] dir h = record { names = []; here = refl }
inside-Below (prefix ∷ cs) dir h = cc
inside-Below (root_dir ∷ cs) dir h = cc
inside-Below (parent_dir ∷ cs) dir h = cc
inside-Below (cur_dir ∷ cs) dir h = inside-Below cs dir h
inside-Below (normal name ∷ cs) dir h =
    let b = inside-Below cs (name ∷ dir) h in
    record {
      names = b.names ++ name ∷ [];
      here = b.here ∙ sym (append_assoc b.names (name ∷ []) dir);
    }

reject-ok : {E : Type 0} (b : Bool) (e : E) → reject_if b e ≡ ok tt → b ≡ false
reject-ok true e h = cc
reject-ok false e h = refl

-- What a manifest must be to be accepted.
pub record Accepted (paths : Paths) (manifest : AdapterManifest) (dir : List String) : Type 0 where
  pub schema : (manifest.schema == 1) ≡ true
  pub abi : (manifest.abi == 1) ≡ true
  pub core_type : trim_is_empty manifest.core_type ≡ false
  pub engine : trim_is_empty manifest.engine ≡ false
  pub version : trim_is_empty manifest.version ≡ false
  pub library : trim_is_empty manifest.library ≡ false
  pub relative : paths.is_absolute manifest.library ≡ false
  pub below : Below dir (leads_to (paths.components manifest.library) dir)

-- An accepted adapter manifest is of the supported schema and ABI, names its core, engine, version
-- and library, and the path of the library is relative and leads from any directory to that
-- directory itself or to a place below it, never out of it.
pub validate_adapter_manifest-Accepted :
    (paths : Paths) (manifest : AdapterManifest) (path : String) (dir : List String)
    → validate_adapter_manifest paths manifest path ≡ ok tt
    → Accepted paths manifest dir
unfolding validate_adapter_manifest validate_library_path
validate_adapter_manifest-Accepted paths m path dir h =
    let (h1, d) = >>-eq-ok _ _ h in
    let (h2, c) = >>-eq-ok _ _ h1 in
    let (a, b) = >>-eq-ok _ _ h2 in
    let tests =
      (trim_is_empty m.core_type
        || trim_is_empty m.engine
        || trim_is_empty m.version
        || trim_is_empty m.library) in
    let schema = reject-ok (not (m.schema == 1)) _ a in
    let abi = reject-ok (not (m.abi == core_abi_version)) _ b in
    let identity = reject-ok tests _ c in
    let library =
      reject-ok (paths.is_absolute m.library || not (all stays_inside (paths.components m.library)))
        _ d in
    record {
      schema = ground (arith, schema);
      abi = ground (arith, abi);
      core_type = ground (arith, identity);
      engine = ground (arith, identity);
      version = ground (arith, identity);
      library = ground (arith, identity);
      relative = ground (arith, library);
      below = inside-Below (paths.components m.library) dir (ground (arith, library));
    }
