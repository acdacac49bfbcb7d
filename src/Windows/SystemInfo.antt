-- ===== src/Windows/SystemInfo.antt =====
-- `wmi2::query` and `system_info` of src/change_lib/platform/win32/helper.hpp and helper.cpp. The
-- objects that Windows answers with are arguments.
use wallchanger.Base.{
  ℕ, ◌+◌, ◌/◌, ◌%◌, ◌^◌, List, [], ◌∷◌, ◌++◌, String, Option, none, some, nat_ordered, ◌==◌,
  if◌then◌else◌, Outcome, done, fault, past_end, bad_access, ◌>>=◌,
}

-- What `Get` gives for a property: an error, `VT_NULL`, or a value of a type.
pub data Property : Type 0 where
  failed null other_type : Property
  cim_string : String → Property
  cim_uint : ℕ → Property
  -- Both tests hold for a reference: its text, and its bits.
  cim_reference : String → ℕ → Property

-- `query_data`, a variant.
pub data QueryData : Type 0 where
  text : String → QueryData
  number : ℕ → QueryData

abbrev pub WmiObject : Type 0
WmiObject = String → Property

-- A property that is missing adds nothing.
unfoldable pub read_property : Property → List QueryData
read_property failed = []
read_property null = []
read_property other_type = []
read_property (cim_string s) = text s ∷ []
read_property (cim_uint n) = number n ∷ []
read_property (cim_reference s n) = text s ∷ number n ∷ []

unfoldable pub read_object : WmiObject → List String → List QueryData
unfolding read_property
read_object o [] = []
read_object o (filter ∷ lists) = read_property (o filter) ++ read_object o lists

abbrev pub read_objects : List WmiObject → List String → List QueryData
read_objects [] lists = []
read_objects (o ∷ os) lists = read_object o lists ++ read_objects os lists

-- `none` where the query fails. `Release` of the last object needs one.
unfoldable pub query : Option (List WmiObject) → List String → Outcome (List QueryData)
unfolding read_object
query none lists = done []
query (some []) lists = fault past_end
query (some (o ∷ os)) lists = done (read_objects (o ∷ os) lists)

-- The loop over the data, with `counter`.
unfoldable pub visit_all {ℓ} : {I : Type ℓ} → (ℕ → QueryData → I → I) → ℕ → List QueryData → I → I
visit_all f counter [] info = info
visit_all f counter (d ∷ ds) info = visit_all f (counter + 1) ds (f counter d info)

pub record GpuInfoStruct : Type 0 where
  pub name : String
  pub memory : ℕ
  pub resolution_horizontal : ℕ
  pub resolution_vertical : ℕ
  pub refresh_rate : ℕ
  pub bits_pre_pixal : ℕ

-- The memory of the adapter is an argument.
abbrev pub gpu_visit : ℕ → ℕ → QueryData → GpuInfoStruct → GpuInfoStruct
gpu_visit memory counter (text s) info = record info { name = s; memory = memory }
gpu_visit memory counter (number n) info =
    let info = record info { memory = memory } in
    if counter == 1
    then record info { resolution_horizontal = n }
    else if counter == 2
    then record info { resolution_vertical = n }
    else if counter == 3
    then record info { refresh_rate = n }
    else if counter == 4
    then record info { bits_pre_pixal = n }
    else info

unfoldable pub get_gpuinfo : ℕ → Option (List WmiObject) → GpuInfoStruct → Outcome GpuInfoStruct
unfolding query visit_all
get_gpuinfo memory controllers info =
    query controllers (
      "Name" ∷ "CurrentHorizontalResolution" ∷ "CurrentVerticalResolution" ∷ "MaxRefreshRate"
      ∷ "CurrentBitsPerPixel" ∷ [])
    >>= λ ret. done (visit_all (gpu_visit memory) 0 ret info)

pub record CpuInfoStruct : Type 0 where
  pub name : String
  pub manufacturer : String
  pub socket : String
  pub core_count : ℕ
  pub thread_count : ℕ
  pub architecture : ℕ
  pub addresswidth : ℕ
  pub clock_speed : ℕ

abbrev pub cpu_visit : ℕ → QueryData → CpuInfoStruct → CpuInfoStruct
cpu_visit counter (number n) info =
    if counter == 3
    then record info { core_count = n }
    else if counter == 4
    then record info { thread_count = n }
    else if counter == 5
    then record info { clock_speed = n }
    else if counter == 6
    then record info { addresswidth = n % 2 ^ 16 }
    else if counter == 7
    then record info { architecture = n % 2 ^ 16 }
    else info
cpu_visit counter (text s) info =
    if counter == 0
    then record info { name = s }
    else if counter == 1
    then record info { socket = s }
    else if counter == 2
    then record info { manufacturer = s }
    else info

unfoldable pub get_processor_info : Option (List WmiObject) → CpuInfoStruct → Outcome CpuInfoStruct
unfolding query visit_all
get_processor_info processors info =
    query processors (
      "Name" ∷ "SocketDesignation" ∷ "Manufacturer" ∷ "NumberOfCores" ∷ "ThreadCount"
      ∷ "CurrentClockSpeed" ∷ "AddressWidth" ∷ "Architecture" ∷ [])
    >>= λ ret. done (visit_all cpu_visit 0 ret info)

pub record ComputerInfo : Type 0 where
  pub mother_board : String
  pub total_physical_memory : ℕ
  pub total_virtual_memory : ℕ
  pub memory_speed : ℕ
  pub name : String
  pub build_number : String
  pub codepage : String
  pub version : String
  pub os_arch : String
  pub service_pack_minor : ℕ
  pub service_pack_major : ℕ

-- `std::get` of the first element; a vector does not check its index.
abbrev pub first_text : List QueryData → Outcome String
first_text [] = fault past_end
first_text (text s ∷ ds) = done s
first_text (number n ∷ ds) = fault bad_access

abbrev pub first_number : List QueryData → Outcome ℕ
first_number [] = fault past_end
first_number (text s ∷ ds) = fault bad_access
first_number (number n ∷ ds) = done n

abbrev pub computer_visit : ℕ → QueryData → ComputerInfo → ComputerInfo
computer_visit counter (number n) info =
    if counter == 5
    then record info { service_pack_minor = n % 2 ^ 16 }
    else if counter == 6
    then record info { service_pack_major = n % 2 ^ 16 }
    else info
computer_visit counter (text s) info =
    if counter == 0
    then record info { name = s }
    else if counter == 1
    then record info { build_number = s }
    else if counter == 2
    then record info { codepage = s }
    else if counter == 3
    then record info { version = s }
    else if counter == 4
    then record info { os_arch = s }
    else info

-- What the five sources of a computer's data answer.
pub record Machine : Type 0 where
  pub total_virtual : ℕ
  pub base_boards : Option (List WmiObject)
  pub computer_systems : Option (List WmiObject)
  pub physical_memories : Option (List WmiObject)
  pub operating_systems : Option (List WmiObject)

-- `ONE_KIB` is 1024.
unfoldable pub getcomputer_info : Machine → ComputerInfo → Outcome ComputerInfo
unfolding query visit_all
getcomputer_info m info = query m.base_boards ("Product" ∷ []) >>= first_text >>= λ board.
    query m.computer_systems ("TotalPhysicalMemory" ∷ []) >>= first_number >>= λ total.
    query m.physical_memories ("Speed" ∷ []) >>= first_number >>= λ speed.
    query m.operating_systems (
      "Name" ∷ "BuildNumber" ∷ "CodeSet" ∷ "Version" ∷ "OSArchitecture" ∷ "ServicePackMinorVersion"
      ∷ "ServicePackMajorVersion" ∷ [])
    >>= λ ret. done (
        visit_all computer_visit 0 ret (record info {
          mother_board = board;
          total_physical_memory = total / 1024;
          total_virtual_memory = m.total_virtual / 1024;
          memory_speed = speed;
        }))
