-- ===== src/Interrupts/Report.antt =====
-- What `idt_exception_handler` tells of an exception.
use ssos.Base.{ℕ, ◌^◌, ◌<◌, ◌≡◌, refl, sym, ap, ◌∙◌}
use ssos.Base.{List, ◌++◌, Option, some, ◌>>=◌, true}
use ssos.Screen.{Screen, screen_print, screen_print_addr}
use ssos.Screen.Paint.{IsUsable}
use ssos.Screen.Grid.{At, KeepsRest}
use ssos.Screen.Print.{is_ascii, bind_ext, screen_print-append, is_ascii-append, screen_print-At}
use ssos.Screen.Address.{read_addr, read_addr-screen_print_addr}
use ssos.Interrupts.{InterruptFrame, idt_exception_handler, got_exception, from_address}
use ssos.Interrupts.{with_error_code, full_stop}

-- A number as the handler prints it.
pub record Shows (n : ℕ) (text : List ℕ) : Type 0 where
  pub reads : read_addr text ≡ some n
  pub ascii : is_ascii text ≡ true
  pub prints :
      (s : Screen) (byte : ℕ → ℕ) → screen_print_addr 17 n s byte ≡ screen_print text s byte

shown : (n : ℕ) → n < 2 ^ 64 → (text : List ℕ) × Shows n text
shown n lt =
    let (text, prints, reads, ascii, long, short) = read_addr-screen_print_addr n lt in
    (text, record { reads = reads; ascii = ascii; prints = prints })

abbrev pub report : List ℕ → List ℕ → List ℕ → List ℕ
report int_num rip error_code =
    got_exception
    ++ (int_num ++ (from_address ++ (rip ++ (with_error_code ++ (error_code ++ full_stop)))))

-- A string, and what is printed behind it.
string_then :
    (str rest : List ℕ) (k : Screen × (ℕ → ℕ) → Option (Screen × (ℕ → ℕ)))
    → ((r : Screen × (ℕ → ℕ)) → k r ≡ screen_print rest r.0 r.1)
    → (r : Screen × (ℕ → ℕ)) → (screen_print str r.0 r.1 >>= k) ≡ screen_print (str ++ rest) r.0 r.1
string_then str rest k h r =
    bind_ext (screen_print str r.0 r.1) k _ h ∙ sym (screen_print-append str rest r.0 r.1)

number_then :
    (n : ℕ) (text rest : List ℕ) (k : Screen × (ℕ → ℕ) → Option (Screen × (ℕ → ℕ)))
    → Shows n text
    → ((r : Screen × (ℕ → ℕ)) → k r ≡ screen_print rest r.0 r.1)
    → (r : Screen × (ℕ → ℕ))
    → (screen_print_addr 17 n r.0 r.1 >>= k) ≡ screen_print (text ++ rest) r.0 r.1
number_then n text rest k h e r =
    ap (λ (o : Option (Screen × (ℕ → ℕ))). o >>= k) (h.prints r.0 r.1) ∙ string_then text rest k e r

handler-report :
    (frame : InterruptFrame) (int_num : ℕ) (a b c : List ℕ) (s : Screen) (byte : ℕ → ℕ)
    → Shows int_num a
    → Shows frame.rip b
    → Shows frame.error_code c
    → idt_exception_handler 17 frame int_num s byte ≡ screen_print (report a b c) s byte
unfolding idt_exception_handler
handler-report frame int_num a b c s byte ha hb hc =
    string_then got_exception _ _
      (number_then int_num a _ _ ha (
        string_then from_address _ _ (
          number_then frame.rip b _ _ hb (
            string_then with_error_code _ _
              (number_then frame.error_code c full_stop _ hc (λ r. refl))))))
      (s, byte)

report_ascii :
    (m n k : ℕ) (a b c : List ℕ)
    → Shows m a
    → Shows n b
    → Shows k c
    → is_ascii (report a b c) ≡ true
report_ascii m n k a b c ha hb hc =
    let end = c ++ full_stop in
    let middle = b ++ (with_error_code ++ end) in
    is_ascii-append a (from_address ++ middle) ha.ascii (
      is_ascii-append b (with_error_code ++ end) hb.ascii
        (is_ascii-append c full_stop hc.ascii refl))

-- On a usable screen of whole characters, `idt_exception_handler` prints its report and stops: it never
-- faults, whatever the number of the exception, the address and the error code, all of 64 bits. The
-- report has the three numbers between its fixed texts, each in a form that reads back as that number,
-- and no byte outside the frame buffer differs.
pub idt_exception_handler-report :
    (z cols rows col row : ℕ) (s : Screen) (byte : ℕ → ℕ) (frame : InterruptFrame) (int_num : ℕ)
    → IsUsable s.screen_fb
    → At s z cols rows col row
    → int_num < 2 ^ 64
    → frame.rip < 2 ^ 64
    → frame.error_code < 2 ^ 64
    → (a : List ℕ) × (b : List ℕ) × (c : List ℕ) × (s' : Screen) × (byte' : ℕ → ℕ) × Shows int_num a
      × Shows frame.rip b
      × Shows frame.error_code c
      × (idt_exception_handler 17 frame int_num s byte ≡ screen_print (report a b c) s byte)
      × (screen_print (report a b c) s byte ≡ some (s', byte'))
      × KeepsRest s.screen_fb byte byte'
idt_exception_handler-report z cols rows col row s byte frame int_num usable at li lr le =
    let (a, ha) = shown int_num li in
    let (b, hb) = shown frame.rip lr in
    let (c, hc) = shown frame.error_code le in
    let (s', byte', runs, moved, keeps) =
      screen_print-At (report a b c) z cols rows col row s byte usable at
        (report_ascii int_num frame.rip frame.error_code a b c ha hb hc) in
    (
      a,
      b,
      c,
      s',
      byte',
      ha,
      hb,
      hc,
      handler-report frame int_num a b c s byte ha hb hc,
      runs,
      keeps,
    )
