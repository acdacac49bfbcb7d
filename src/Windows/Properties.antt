-- ===== src/Windows/Properties.antt =====
-- What `get_processor_info` of src/change_lib/platform/win32/helper.cpp makes of an object with all
-- properties, and of one that lacks one.
use wallchanger.Base.{ℕ, ◌%◌, ◌^◌, ◌≡◌, refl, [], ◌∷◌, String, some, done}
use wallchanger.Windows.SystemInfo.{
  cim_string, cim_uint, WmiObject, read_property, read_object, query, visit_all, CpuInfoStruct,
  get_processor_info,
}

-- The properties of a processor, but for the socket.
pub record HasProperties (o : WmiObject) : Type 0 where
  pub name : String
  pub manufacturer : String
  pub cores : ℕ
  pub threads : ℕ
  pub clock : ℕ
  pub width : ℕ
  pub architecture : ℕ
  pub at_name : o "Name" ≡ cim_string name
  pub at_manufacturer : o "Manufacturer" ≡ cim_string manufacturer
  pub at_cores : o "NumberOfCores" ≡ cim_uint cores
  pub at_threads : o "ThreadCount" ≡ cim_uint threads
  pub at_clock : o "CurrentClockSpeed" ≡ cim_uint clock
  pub at_width : o "AddressWidth" ≡ cim_uint width
  pub at_architecture : o "Architecture" ≡ cim_uint architecture

-- With all its properties, of the types that are read, one processor is described by them, whatever
-- the structure held: the width and the architecture modulo 2^16.
pub get_processor_info_complete :
    (o : WmiObject) (p : HasProperties o) (socket : String) (info : CpuInfoStruct)
    → o "SocketDesignation" ≡ cim_string socket
    → get_processor_info (some (o ∷ [])) info
      ≡ done (record {
        name = p.name;
        manufacturer = p.manufacturer;
        socket = socket;
        core_count = p.cores;
        thread_count = p.threads;
        architecture = p.architecture % 2 ^ 16;
        addresswidth = p.width % 2 ^ 16;
        clock_speed = p.clock;
      })
unfolding get_processor_info query read_object read_property visit_all
get_processor_info_complete o p socket info h =
    rw
      (
        p.at_name, h, p.at_manufacturer, p.at_cores, p.at_threads, p.at_clock, p.at_width,
        p.at_architecture,
      )
      refl

-- Without a socket, null or of another type, the other properties are taken for one another: the
-- manufacturer is the socket, the threads are the cores, the clock speed is the number of threads,
-- the width is the clock speed and the architecture is the width.
pub get_processor_info_shifted :
    (o : WmiObject) (p : HasProperties o) (info : CpuInfoStruct)
    → read_property (o "SocketDesignation") ≡ []
    → get_processor_info (some (o ∷ [])) info
      ≡ done (record info {
        name = p.name;
        socket = p.manufacturer;
        core_count = p.threads;
        thread_count = p.clock;
        clock_speed = p.width;
        addresswidth = p.architecture % 2 ^ 16;
      })
unfolding get_processor_info query read_object read_property visit_all
get_processor_info_shifted o p info h =
    rw
      (
        p.at_name, h, p.at_manufacturer, p.at_cores, p.at_threads, p.at_clock, p.at_width,
        p.at_architecture,
      )
      refl
