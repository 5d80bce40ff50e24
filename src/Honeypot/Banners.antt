-- ===== src/Honeypot/Banners.antt =====
-- internal/mirage/banners.go: the banners and the names of the services.
use phantom_grid.Prelude.{List, [], ◌∷◌, ◌++◌, String, replicate}
use phantom_grid.Prelude.Bytes.{Bytes, codes}
use phantom_grid.Honeypot.Text.{switch}

abbrev pub ssh_banners : List Bytes
ssh_banners =
    codes "SSH-2.0-OpenSSH_8.2p1 Ubuntu-4ubuntu0.5\r\n"
    ∷ codes "SSH-2.0-OpenSSH_7.4 Debian-10+deb9u7\r\n"
    ∷ codes "SSH-2.0-OpenSSH_8.0 FreeBSD-20200214\r\n"
    ∷ codes "SSH-2.0-OpenSSH_7.9 CentOS-7.9\r\n"
    ∷ codes "SSH-2.0-OpenSSH_8.1 RedHat-8.1\r\n"
    ∷ codes "SSH-2.0-OpenSSH_6.7p1 Debian-5+deb8u4\r\n"
    ∷ codes "SSH-2.0-OpenSSH_7.6p1 Ubuntu-4ubuntu0.3\r\n"
    ∷ codes "SSH-2.0-OpenSSH_8.4p1 Arch Linux\r\n"
    ∷ []

abbrev pub http_banners : List Bytes
http_banners =
    codes "HTTP/1.1 200 OK\r\nServer: nginx/1.18.0 (Ubuntu)\r\n\r\n"
    ∷ codes "HTTP/1.1 200 OK\r\nServer: Apache/2.4.41 (Debian)\r\n\r\n"
    ∷ codes "HTTP/1.1 200 OK\r\nServer: Microsoft-IIS/10.0\r\n\r\n"
    ∷ codes "HTTP/1.1 200 OK\r\nServer: nginx/1.20.1\r\n\r\n"
    ∷ []

-- The version, between a byte 10 and 24 bytes 0.
abbrev pub mysql_banner : String → Bytes
mysql_banner version = 10 ∷ codes version ++ replicate 24 0

abbrev pub mysql_banners : List Bytes
mysql_banners =
    mysql_banner "5.7.35-0ubuntu0.18.04.1"
    ∷ mysql_banner "8.0.27-0ubuntu0.20.04.1"
    ∷ mysql_banner "10.3.34-MariaDB-1:10.3.34+maria~focal"
    ∷ []

abbrev pub redis_banners : List Bytes
redis_banners =
    codes "$6\r\nRedis\r\n" ∷ codes "$7\r\nRedis 6.2.6\r\n" ∷ codes "$7\r\nRedis 5.0.7\r\n" ∷ []

abbrev pub ftp_banners : List Bytes
ftp_banners =
    codes "220 ProFTPD 1.3.6 Server (ProFTPD Default Installation) [::ffff:192.168.1.1]\r\n"
    ∷ codes "220 (vsFTPd 3.0.3)\r\n"
    ∷ codes "220 Microsoft FTP Service\r\n"
    ∷ []

abbrev pub telnet_banners : List Bytes
telnet_banners =
    (codes "Welcome to Ubuntu 20.04.3 LTS (GNU/Linux 5.4.0-74-generic x86_64)\r\n\r\n"
      ++ (codes "* Documentation:  https://help.ubuntu.com\r\n"
          ++ (codes "* Management:     https://landscape.canonical.com\r\n"
              ++ codes
                  "* Support:        https://ubuntu.com/advantage\r\n\r\n  System information as of ")))
    ∷ codes
        "Red Hat Enterprise Linux Server release 7.9 (Maipo)\r\nKernel 3.10.0-1160.el7.x86_64 on an x86_64\r\n\r\nlogin: "
    ∷ codes
        "CentOS Linux 7 (Core)\r\nKernel 3.10.0-1160.el7.x86_64 on an x86_64\r\n\r\nlocalhost login: "
    ∷ codes "Debian GNU/Linux 10\r\n\r\nlocalhost login: "
    ∷ []

abbrev pub service_types : List Bytes
service_types =
    codes "ssh" ∷ codes "http" ∷ codes "mysql" ∷ codes "redis" ∷ codes "ftp" ∷ codes "telnet" ∷ []

-- The banners of the services.
abbrev pub banner_cases : List (List String × List Bytes)
banner_cases =
    ("ssh" ∷ [], ssh_banners)
    ∷ ("http" ∷ [], http_banners)
    ∷ ("mysql" ∷ [], mysql_banners)
    ∷ ("redis" ∷ [], redis_banners)
    ∷ ("ftp" ∷ [], ftp_banners)
    ∷ ("telnet" ∷ [], telnet_banners)
    ∷ []

unfoldable pub banners_for : Bytes → List Bytes
banners_for service_type = switch service_type banner_cases ssh_banners
