-- ===== src/Examples/Texts.antt =====
-- The text form of a message, with a clock whose date is one byte and zeros.
use mclog.Base.{
  ◌≡◌, refl, arith, Text, codes, [], ◌∷◌, ◌++◌, Option, none, some, inl, take, drop, replicate,
}
use mclog.Stream.{is_space}
use mclog.Stream.Words.{no_newline}
use mclog.Decimal.{read_digits, print_padded, print_unsigned, print_digits}
use mclog.Message.{is_valid_hostname, is_valid_app_name, is_host_char, is_app_char, secs, usecs}
use mclog.TextForm.{Clock, Scanned, is_normal, got, print_timestamp, print_message, parse_message}
use mclog.TextForm.RoundTrip.{IsExact, IsPrintable, parse_message-print_message}
use mclog.Examples.{hello, hello-Fits}

abbrev scan : Text → Option Scanned
scan [] = none
scan (t ∷ s) = some (record {
  year = t;
  mon = 1;
  mday = 1;
  hour = 0;
  min = 0;
  sec = 0;
  usecs = read_digits 0 (take 6 (drop 19 s));
  offsign = b'+';
  offhours = 0;
  offmins = 0;
})

abbrev pub clock : Clock
clock = record {
  date_time = λ t. t ∷ replicate 18 b'0';
  zone = λ t. b'+' ∷ replicate 4 b'0';
  scan = scan;
  timegm = λ s. s.year;
}

abbrev scanned : Scanned
scanned = record {
  year = 0;
  mon = 1;
  mday = 1;
  hour = 0;
  min = 0;
  sec = 0;
  usecs = 1000;
  offsign = b'+';
  offhours = 0;
  offmins = 0;
}

clock-IsExact : IsExact clock 1000
unfolding print_timestamp print_padded print_unsigned print_digits read_digits secs usecs is_normal
clock-IsExact = record {
  scanned = scanned;
  date_size = refl;
  zone_size = refl;
  scans = refl;
  normal = refl;
  same_usecs = refl;
  instant = inl (refl, refl);
}

hello-IsPrintable : IsPrintable hello
unfolding is_valid_hostname is_valid_app_name is_host_char is_app_char is_space no_newline
hello-IsPrintable = record {
  fits = hello-Fits;
  hostname = refl;
  appname = refl;
  short_name = omega arith;
  facility = refl;
  severity = omega arith;
  first = b'h';
  others = codes "i";
  text = refl;
  starts = refl;
  one_line = refl;
}

parse_message-print_message_example :
    parse_message clock (print_message clock hello ++ codes "rest") ≡ got hello (codes "rest")
parse_message-print_message_example =
    parse_message-print_message clock hello (codes "rest") hello-IsPrintable clock-IsExact
      (omega arith)
