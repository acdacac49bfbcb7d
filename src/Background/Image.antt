-- ===== src/Background/Image.antt =====
-- `get_image_information` of src/change_lib/platform/win32/bg_handler.hpp and bg_handler.cpp, over
-- what GDI+ answers. A `Status` is its number, with 0 for `Ok`.
use wallchanger.Base.{
  take-length, ℕ, ◌*◌, ◌<◌, Bool, true, false, ◌≡◌, refl, List, [], ◌∷◌, ◌++◌, Option, none, some,
  if◌then◌else◌, length, take, drop, replicate, nat_ordered, ◌==◌, leb, Outcome, done, fault,
  null_pointer, past_end, or_fault, ◌>>=◌, arith, ap, sym,
}
use wallchanger.PathTable.{bytes_of}

-- `PropertyItem`, with the memory at `value`.
pub record PropertyItem : Type 0 where
  pub id : ℕ
  pub item_length : ℕ
  pub item_value : List ℕ

-- Where `memcpy` reads past the memory there is no result.
abbrev pub copied : ℕ → List ℕ → Outcome (List ℕ)
copied n bytes = if leb n (length bytes) then done (take n bytes) else fault past_end

unfoldable pub format_asci : PropertyItem → Outcome (List ℕ)
format_asci item = copied item.item_length item.item_value

-- The bytes of a vector of as many elements as the item has bytes, each of `size_of` bytes.
unfoldable pub format_array : ℕ → PropertyItem → Outcome (List ℕ)
format_array size_of item = copied item.item_length item.item_value >>= λ bytes.
    done (bytes ++ drop item.item_length (replicate (size_of * item.item_length) 0))

unfoldable pub format_data : ℕ → PropertyItem → Outcome (List ℕ)
format_data size_of item = copied size_of item.item_value

-- The tags of the `switch`, with what stands before their texts.
unfoldable pub label : ℕ → Option (List ℕ)
label id =
    if id == 0x013b
    then some (bytes_of "Artist:")
    else if id == 0x0132
    then some (bytes_of "DateTime:")
    else if id == 0x0131
    then some (bytes_of "SoftwareUsed:")
    else if id == 0x010f
    then some (bytes_of "EquipMaker:")
    else if id == 0x0110
    then some (bytes_of "EquipModel:")
    else none

abbrev pub format_with : Option (List ℕ) → PropertyItem → Outcome (List ℕ)
format_with none g = done []
format_with (some text) g = format_asci g >>= λ s. done (text ++ s ++ bytes_of "\n")

-- `std::formatter` of an item.
unfoldable pub format_item : PropertyItem → Outcome (List ℕ)
format_item g = format_with (label g.id) g

unfoldable pub format_items : List PropertyItem → Outcome (List ℕ)
format_items [] = done []
format_items (g ∷ items) = format_item g >>= λ s. format_items items >>= λ rest. done (s ++ rest)

pub record ImageInformation : Type 0 where
  -- Width and height, or the null pointer.
  pub m_image : Option (ℕ × ℕ)
  pub m_initialized : Bool
  pub m_error : List ℕ

-- `SUCCEEDED` of a status that is not negative.
abbrev pub succeeded : ℕ → Bool
succeeded status = leb 0 status

unfoldable pub get_image_information : ℕ → (ℕ → List ℕ) → Option (ℕ × ℕ) → ImageInformation
get_image_information status fmt_msg from_file =
    if succeeded status
    then record { m_image = from_file; m_initialized = true; m_error = [] }
    else record { m_image = none; m_initialized = false; m_error = fmt_msg status }

unfoldable pub get_dimensions : ImageInformation → Outcome (ℕ × ℕ)
get_dimensions i = or_fault null_pointer i.m_image

-- The size in bytes that GDI+ asks for, and the items that it writes. The vector has as many items
-- as bytes were asked for, and its first element is taken also where it has none.
unfoldable pub retrive_image_properties :
    ℕ → List PropertyItem → ImageInformation → Outcome (List ℕ)
retrive_image_properties buffersize items i = or_fault null_pointer i.m_image >>= λ _.
    if buffersize == 0 then fault past_end else format_items items

-- The line of an item whose memory is as long as it says.
abbrev pub text_with : Option (List ℕ) → List ℕ → List ℕ
text_with none bytes = []
text_with (some text) bytes = text ++ bytes ++ bytes_of "\n"

abbrev pub text_of : PropertyItem → List ℕ
text_of g = text_with (label g.id) g.item_value

abbrev pub texts_of : List PropertyItem → List ℕ
texts_of [] = []
texts_of (g ∷ items) = text_of g ++ texts_of items

-- The memory of every item is as long as it says.
abbrev pub Whole : List PropertyItem → Type 0
Whole [] = Unit
Whole (g ∷ items) = (length g.item_value ≡ g.item_length) × Whole items

copied_whole : (bytes : List ℕ) → copied (length bytes) bytes ≡ done bytes
copied_whole bytes =
    let fits : leb (length bytes) (length bytes) ≡ true = ground arith in
    rw fits (ap done (take-length bytes))

format_with_lem :
    (l : Option (List ℕ)) (g : PropertyItem)
    → length g.item_value ≡ g.item_length
    → format_with l g ≡ done (text_with l g.item_value)
unfolding format_asci
format_with_lem none g h = refl
format_with_lem (some text) g h = rw (sym h, copied_whole g.item_value) refl

format_items_lem :
    (items : List PropertyItem) → Whole items → format_items items ≡ done (texts_of items)
unfolding format_items format_item
format_items_lem [] h = refl
format_items_lem (g ∷ items) h =
    rw (format_with_lem (label g.id) g h.0, format_items_lem items h.1) refl

-- Whatever `GdiplusStartup` answers, the image counts as initialized and no error is kept: no
-- status is negative. An image that was read has its dimensions, and where the memory of each of
-- its properties is as long as it says, their text is the lines of the tags that are known, in
-- order; for an image without properties the first element of an empty vector is taken.
pub get_image_information_lem :
    (status : ℕ) (fmt_msg : ℕ → List ℕ) (w h buffersize : ℕ) (items : List PropertyItem)
    → 0 < buffersize
    → Whole items
    → ((get_image_information status fmt_msg (some (w, h))).m_initialized ≡ true)
      × ((get_image_information status fmt_msg (some (w, h))).m_error ≡ [])
      × (get_dimensions (get_image_information status fmt_msg (some (w, h))) ≡ done (w, h))
      × (retrive_image_properties buffersize items
            (get_image_information status fmt_msg (some (w, h)))
          ≡ done (texts_of items))
      × (retrive_image_properties 0 [] (get_image_information status fmt_msg (some (w, h)))
          ≡ fault past_end)
unfolding get_image_information get_dimensions retrive_image_properties
get_image_information_lem status fmt_msg w h buffersize items pos whole =
    let good : succeeded status ≡ true = ground arith in
    let asked : (buffersize == 0) ≡ false = ground arith in
    rw good (refl, refl, refl, rw asked (format_items_lem items whole), refl)
