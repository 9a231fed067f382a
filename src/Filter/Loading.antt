-- ===== src/Filter/Loading.antt =====
-- src/filter/mod.rs: the script read from its file (`load_module`, `load_from_file`). The file
-- system, `CString` and the interpreter give what they give.
use mini_proxad.Prelude.{
  arith, Option, [], ◌≢◌, ◌∷◌, ◌==◌, Bytes, foreign, Result, ok, err, panicked, ◌>>=◌, ok_or,
  if◌then◌else◌,
}
use mini_proxad.Filter.{PyCall, PyRawFlow, PyHttpFlow, FilterModule, Filter}

-- What `getattr_opt` gives for each of the six names that the program looks up; the outer `none` is
-- an error.
pub record ModuleObject (U T Q R : Type 0) : Type 0 where
  pub http_filter : Option (Option (PyHttpFlow U T → Q → R → PyCall R))
  pub http_request : Option (Option (PyHttpFlow U T → Q → PyCall R))
  pub http_open : Option (Option (PyHttpFlow U T → PyCall R))
  pub client_raw_filter : Option (Option (PyRawFlow U T → Bytes → PyCall R))
  pub server_raw_filter : Option (Option (PyRawFlow U T → Bytes → PyCall R))
  pub raw_open : Option (Option (PyRawFlow U T → PyCall R))

-- The file system at the time of a load, and `PyModule::from_code`; `none` is an error.
pub record Disk (U T Q R : Type 0) : Type 0 where
  pub path_text : Bytes → Option Bytes
  pub read : Bytes → Option Bytes
  pub from_code : Bytes → Option (ModuleObject U T Q R)

-- `CString::new`: an error if there is a NUL inside.
unfoldable pub c_string : Bytes → Result Bytes
c_string [] = ok []
c_string (b ∷ bs) =
    let rest = c_string bs >>= λ cs. ok (b ∷ cs) in if b == 0 then err foreign else rest

c_string-ne-panicked : (bs : Bytes) → c_string bs ≢ panicked
unfolding c_string
c_string-ne-panicked [] h = cc
c_string-ne-panicked (b ∷ bs) h = ground (arith, c_string-ne-panicked bs)

module _ {U T Q R : Type 0} where
  unfoldable pub load_module : Disk U T Q R → Bytes → Result (FilterModule U T Q R)
  load_module disk path = do
    text ← ok_or (disk.path_text path) foreign
    bytes ← ok_or (disk.read text) foreign
    code ← c_string bytes
    module_object ← ok_or (disk.from_code code) foreign
    http_filter ← ok_or module_object.http_filter foreign
    http_request ← ok_or module_object.http_request foreign
    http_open ← ok_or module_object.http_open foreign
    raw_client ← ok_or module_object.client_raw_filter foreign
    raw_server ← ok_or module_object.server_raw_filter foreign
    raw_open ← ok_or module_object.raw_open foreign
    ok (record {
      http_filter = http_filter;
      http_request = http_request;
      http_open = http_open;
      raw_client = raw_client;
      raw_server = raw_server;
      raw_open = raw_open;
    })

  unfoldable pub load_from_file : Disk U T Q R → Bytes → Result (Filter U T Q R)
  load_from_file disk path = do
    script_path ← c_string path
    inner ← load_module disk script_path
    ok (record { script_path = script_path; inner = inner })

  pub load_module-ne-panicked :
      (disk : Disk U T Q R) (path : Bytes) → load_module disk path ≢ panicked
  unfolding load_module
  load_module-ne-panicked disk path h = grind (arith, c_string-ne-panicked)
